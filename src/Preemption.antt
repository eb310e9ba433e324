-- ===== src/Preemption.antt =====
-- What the plugins that preempt share (pkg/preemptiontoleration, pkg/capacityscheduling): `Budgets` is
-- the split of the candidates by the disruption budgets, of which each plugin has a copy, `DryRun` the
-- node that a dry run changes. The others hold the proofs and what they rest on.
pub mod Budgets
pub mod Charge
pub mod Within
pub mod DryRun
pub mod Monotone
pub mod Chosen
pub mod Members
pub mod Samples
pub mod Tests
