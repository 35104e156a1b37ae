-- ===== src/Hierarchy.antt =====
-- The class hierarchy iterator of generic/itclClass.c, on the stack of generic/itclUtil.c, and the
-- loop over it that its users share.
mod Loop
pub mod Order
pub mod Iteration
unfoldable pub use Loop.*
