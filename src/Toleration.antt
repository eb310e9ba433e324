-- ===== src/Toleration.antt =====
-- Preemption toleration (pkg/preemptiontoleration): `Policy` is the annotations of a priority class
-- and the test of one pod, `Node` the choice of victims on a node with the other extension points,
-- the others hold the proofs.
pub mod Policy
pub mod Exemption
pub mod Node
pub mod Victims
pub mod Selected
pub mod Candidates
pub mod Tests
