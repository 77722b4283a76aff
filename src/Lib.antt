-- ===== src/Lib.antt =====
-- Verification of forge-alloc, a family of composable memory allocators.
--
-- Parts and where they are modelled:
--   Core.Layout        crates/forge-alloc-core/src/traits/non_zero_layout.rs: `NonZeroLayout`
--   Core.Allocator     crates/forge-alloc-core/src/traits/allocator.rs: the traits as a record, and the
--                      defaulted `allocate_zeroed`, `grow`, `shrink`
--   Core.StdCompat     non_zero_layout.rs too: `StdCompat`, the adapter to the `allocator_api2` trait
--   Core.Range         crates/forge-alloc-core/src/traits/fixed_range.rs: the interface `FixedRange`
--   Core.Freelist      crates/forge-alloc-core/src/traits/freelist_protection.rs: tags on free links
--   Core.Memory        memory as a function from addresses to bytes, for the copies and the clearing
--   Cursor             the cursor arithmetic that the bump-style allocators share
--   Backing.Inline     crates/forge-alloc/src/backing/inline.rs: `InlineBacked`
--   Backing.Mmap       crates/forge-alloc/src/backing/mmap.rs: `MmapBacked`, on Unix and on Windows
--   Backing.Locked     crates/forge-alloc/src/backing/locked_mmap.rs: `LockedMmapBacked`
--   Backing.Protect    mmap.rs too: the change of protection, and the flags of
--                      crates/forge-alloc-core/src/traits/os_backed.rs
--   Backing.Heap       crates/forge-alloc/src/backing/heap.rs and static_buf.rs: `HeapBytes`, `StaticBacked`
--   Bump               crates/forge-alloc/src/layout/bump.rs: `BumpArena`, `Scope`
--   Slab               crates/forge-alloc/src/layout/slab.rs: `Slab`
--   Stack              crates/forge-alloc/src/layout/stack_alloc.rs: `StackAlloc`
--   Generational       crates/forge-alloc/src/layout/generational.rs: `GenerationalSlab`
--   Fallback           crates/forge-alloc/src/layout/fallback.rs: `WithFallback`
--   Faults             crates/forge-alloc-core/src/traits/alloc_fault_policy.rs and
--                      crates/forge-alloc/src/hardening/faulty.rs: `Faulty` and its policies
--   Quarantine         crates/forge-alloc/src/hardening/quarantine.rs: `Quarantine`, a ring of freed blocks
--   SharedBump         crates/forge-alloc/src/layout/shared_bump.rs: `SharedBumpArena`, shared by threads
--   SizeClassed        crates/forge-alloc/src/layout/size_classed.rs: `SizeClassed` and its `UntypedSlab`
--   ArenaPool          crates/forge-alloc/src/layout/arena_pool.rs: `ArenaPool`
--   ExtendableSlab     crates/forge-alloc/src/layout/extendable_slab.rs: `ExtendableSlab`
--   SlabOwner          crates/forge-alloc/src/layout/slab_owner.rs: `SlabOwner` and `SlabRemote`
--   Canary             crates/forge-alloc/src/hardening/canary.rs: `Canary`, with a word on each side of a block
--   GuardPage          crates/forge-alloc/src/hardening/guard_page.rs: `GuardPage`
--   CacheJitter        crates/forge-alloc/src/hardening/cache_jitter.rs: `CacheJitter`
--   Watermark          crates/forge-alloc/src/hardening/watermark.rs: `Watermark` and its handlers
--   Statistics         crates/forge-alloc/src/hardening/statistics.rs: `Statistics`
--   Scrub              crates/forge-alloc/src/hardening/poison.rs and zeroize.rs: `PoisonOnFree`,
--                      `ZeroizeOnFree`
--   Word, Base         machine words, bit operations and the helpers that all parts share
--
-- A layout is asked of an allocator; arenas and slabs take their memory from a backing, which they
-- see only through the interface of `FixedRange` (and, for a slab, `Allocator`), so each is a section
-- over any backing that keeps the laws of that interface. The inline buffer fills both interfaces.
-- The memory protection of a slab's free list is likewise an argument.
--
-- State is passed explicitly: a method through `&self` that changes a cell returns the new value
-- beside its result, and `none` is `AllocError` or a refused construction. Addresses and machine
-- integers are natural numbers with their wrap-around written out at an arbitrary width `w`; the
-- counts of a slab are `u32`, of 32 bits. The code is the release build: debug assertions, which a
-- caller that keeps the safety contract never meets, are left out. Reachability is an indexed data
-- type of the steps that the safety contracts allow.
--
-- Threads: the shared arena has one atomic word, so its threads are a step relation whose steps are the
-- rounds of their compare-and-exchange loops, in any order; what the exchange answers is an
-- argument of the round, and a relaxed read may see an older value. In the extendable slab, which
-- is locked, other threads are a function on its state between its two critical sections. The threads
-- of a slab owner are a step relation whose steps are the critical sections of its queue. Those of the
-- statistics are step relations whose steps are single atomic operations, and those of the watermark
-- one whose steps are the atomic operations, the reads of the capacity and the calls of the handler.
--
-- Loops: a loop over an array or a vector is a recursion on the list or on the number of rounds left.
-- The exchange loop of the shared arena runs over the list of the turns that it meets, and its
-- termination theorem says how many are enough. The `while` of `prewarm` has fuel for one round
-- more than the cap, and each round adds an arena. `next_power_of_two` doubles at most as often as a word
-- has bits. The slots of a generational slab are initialised by a function from the index.
--
-- Not modelled: destructors that only free memory, and borrows, which Rust checks; the huge-page
-- backings and the page-level wrappers, most of whose work the operating system does; the system's own
-- allocator; forwards of a wrapper to its inner allocator; the containers; the C interface; the
-- hash inside `SipHashMAC`, which the `siphasher` crate computes and which is an argument here.
-- The operating system and the global allocator are records of calls, with their documented behaviour as laws.
pub mod Base
pub mod Word
pub mod Core
pub mod Cursor
pub mod Backing
pub mod Bump
pub mod Slab
pub mod Stack
pub mod Generational
pub mod GuardPage
pub mod Fallback
pub mod Faults
pub mod Quarantine
pub mod SharedBump
pub mod SizeClassed
pub mod ArenaPool
pub mod ExtendableSlab
pub mod SlabOwner
pub mod Canary
pub mod CacheJitter
pub mod Watermark
pub mod Statistics
pub mod Scrub
