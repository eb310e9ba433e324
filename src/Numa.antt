-- ===== src/Numa.antt =====
-- The plugin NodeResourceTopologyMatch (pkg/noderesourcetopology): `Filter` is filter.go with the
-- zones of pluginhelpers.go, `Fitting`, `Aligned` and `Repeated` hold the proofs.
pub mod Filter
pub mod Fitting
pub mod Aligned
pub mod Repeated
mod Tests
