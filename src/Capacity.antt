-- ===== src/Capacity.antt =====
-- Capacity scheduling (pkg/capacityscheduling): `Quota` is elasticquota.go, `Plugin` the parts of
-- capacity_scheduling.go that keep the quotas and admit pods, `Preemptor` its preemption.
pub mod Quota
pub mod Plugin
pub mod Preemptor
pub mod Victims
pub mod Selected
pub mod PreemptorTests
pub mod Wrap
pub mod Dimensions
pub mod Accounting
pub mod Books
pub mod Events
pub mod Admission
pub mod Tests
