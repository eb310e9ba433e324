-- ===== src/NodeResources.antt =====
-- The plugin NodeResourcesAllocatable (pkg/noderesources): `Allocatable` is allocatable.go and
-- resource_allocation.go, `Weighted` and `Scores` hold the proofs.
pub mod Allocatable
pub mod Weighted
pub mod Scores
pub mod Tests
