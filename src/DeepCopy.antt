-- ===== src/DeepCopy.antt =====
-- api/v1alpha1/zz_generated.deepcopy.go: the deep copies of the custom resources, over a memory of
-- cells with addresses.
pub mod Structs
pub mod Cells
pub mod Heap
pub mod Stands
pub mod Pointers
pub mod Growth
pub mod Fresh
pub mod Parts
pub mod Roots
pub mod Readings
pub mod Inner
pub mod Apart
pub mod Whole
pub mod Methods
