-- ===== src/Backing.antt =====
-- crates/forge-alloc/src/backing: the regions under the allocators.
pub mod Inline
pub mod Mmap
pub mod Protect
pub mod Locked
pub mod Heap
