-- ===== src/Treap.antt =====
-- The ordered map of code/treap.h.
pub mod Key
pub mod Tree
pub mod Map
pub mod Entries
pub mod Queries
pub mod Refine
pub mod Sizes
pub mod Update
pub mod Laws
pub mod Range
pub mod Count
pub mod Listing
pub mod Memory
pub mod Delete
mod Tests
