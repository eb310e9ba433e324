-- ===== src/Coscheduling.antt =====
-- Gang scheduling (pkg/coscheduling): `Manager` is core/core.go, `Plugin` is coscheduling.go.
pub mod Cluster
pub mod Manager
pub mod Assigned
pub mod Plugin
pub mod Gang
pub mod Binding
pub mod Cover
pub mod Order
pub mod Tests
