-- ===== src/FlexGpu.antt =====
-- The plugin FlexGPU (pkg/flexgpu): `Node` is gpu_node.go, `Plugin` is flex_gpu.go.
pub mod Node
pub mod Plugin
pub mod Table
pub mod Rebuild
pub mod Fit
pub mod Free
pub mod Placement
pub mod Safety
pub mod Searched
pub mod Admitted
pub mod Cycle
mod Tests
