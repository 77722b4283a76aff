-- ===== src/Core.antt =====
-- crates/forge-alloc-core: the contracts that the allocators share.
pub mod Layout
pub mod Memory
pub mod Bytes
pub mod Range
pub mod Allocator
pub mod StdCompat
pub mod Freelist
