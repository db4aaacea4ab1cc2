-- ===== src/DeepCopy/Cells.antt =====
-- What the cells of memory hold.
mod Data
mod Values
mod Structs
pub use Data.*
pub use Values.*
pub use Structs.*
