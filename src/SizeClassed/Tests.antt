-- ===== src/SizeClassed/Tests.antt =====
-- Classes of 8 and 16 bytes with four slots each, over 128 bytes at 4096 that go and come back like a
-- stack; in 80 bytes the second class finds no room.
use forge_alloc.Base.{
  ℕ, ◌+◌, ◌-◌, ◌*◌, ◌^◌, ◌<◌, ◌≡◌, refl, arith, none, some, [], ◌∷◌, leb, ◌==◌, if◌then◌else◌,
}
use forge_alloc.Word.Defs.{trailing_zeros, is_power_of_two, next_power_of_two}
use forge_alloc.Core.Layout.{NonZeroLayout, from_size_align}
use forge_alloc.Core.Range.{FixedRange, commit_default}
use forge_alloc.Core.Allocator.{Allocator}
use forge_alloc.SizeClassed.Untyped
use forge_alloc.SizeClassed.Untyped.{UntypedSlab, Nexts, slot_ptr, base_ptr}
use forge_alloc.SizeClassed.Lookup.{build_lookup, mark_one}
use forge_alloc.SizeClassed.{
  SizeClassed, set, region_layout, with_class_sizes, pick_class, deallocate, allocate,
}
use forge_alloc.SizeClassed.Pick.{Picks, with_class_sizes-Picks}
use forge_alloc.SizeClassed.Route.{Placed}
use forge_alloc.SizeClassed.Reuse.{Chain, Reused, class-reuses_freed}
use forge_alloc.SizeClassed.Undo.{IsStackLike, with_class_sizes_restores}

-- The number of bytes in use.
abbrev bytes : FixedRange ℕ
bytes = record { base = λ b. 4096; size = λ b. 128; commit = commit_default }

abbrev stack_of : ℕ → Allocator ℕ
stack_of room = record {
  allocate = λ b l.
      if leb (b + l.size) room
      then (b + l.size, some (record { address = 4096 + b; length = l.size }))
      else (b, none);
  deallocate = λ b ptr l. ptr - 4096;
}

abbrev sizes : ℕ → ℕ
sizes i = if i == 0 then 8 else 16

sizes_are_words : (i : ℕ) → i < 2 → sizes i < 2 ^ 64
sizes_are_words i lt = ground arith

abbrev slabs : ℕ → UntypedSlab
slabs = set (set (λ i. Untyped.new 0 0 0) 0 (Untyped.new 0 8 4)) 1 (Untyped.new 32 16 4)

abbrev made : SizeClassed ℕ
made = record {
  backing = 96;
  class_sizes = sizes;
  slabs = slabs;
  class_layouts =
      set (set (λ i. record { size = 0; align = 0 }) 0 (record { size = 32; align = 8 })) 1
        (record { size = 64; align = 16 });
  class_lookup = build_lookup 64 sizes 2;
  region_sizes = λ i. (slabs i).capacity * (slabs i).block_stride;
}

constructs : with_class_sizes 64 bytes (stack_of 128) 2 0 sizes 4 ≡ (96, some made)
unfolding with_class_sizes region_layout is_power_of_two from_size_align Untyped.new
constructs = refl

-- A request of 9 bytes gets the second class, and one of 17 none.
picks_the_second : pick_class 64 (build_lookup 64 sizes 2) 9 1 ≡ some 1
unfolding pick_class next_power_of_two trailing_zeros build_lookup mark_one
picks_the_second = refl

picks_none : pick_class 64 (build_lookup 64 sizes 2) 17 1 ≡ none
unfolding pick_class next_power_of_two trailing_zeros build_lookup mark_one
picks_none = refl

stack-IsStackLike : IsStackLike 64 bytes (stack_of 80)
stack-IsStackLike = record {
  refuses = λ b b' l e. ground (arith, e);
  restores = λ b b' l c e. ground (arith, e);
  serves = λ b b' l c e. ground (arith, e);
}

fails_in_80 : (with_class_sizes 64 bytes (stack_of 80) 2 0 sizes 4).1 ≡ none
unfolding with_class_sizes region_layout is_power_of_two from_size_align
fails_in_80 = refl

with_class_sizes-Picks_example : Picks sizes 2 9 1 (pick_class 64 made.class_lookup 9 1)
with_class_sizes-Picks_example =
    with_class_sizes-Picks 64 2 bytes (stack_of 128) 0 96 sizes 4 made 9 1 (omega arith)
      sizes_are_words constructs

with_class_sizes_restores_example : (with_class_sizes 64 bytes (stack_of 80) 2 0 sizes 4).0 ≡ 0
with_class_sizes_restores_example =
    with_class_sizes_restores 64 bytes (stack_of 80) stack-IsStackLike sizes 4 2 0 fails_in_80

made-Placed : Placed 64 2 bytes (stack_of 128) made
unfolding Untyped.new
made-Placed = record {
  inside = λ i lt. ground arith;
  size = λ i lt. refl;
  apart = λ i j lt top. ground arith;
}

abbrev small : NonZeroLayout
small = record { size = 9; align = 1 }

-- The second class with all slots used once, and slots 3 and 1 free.
abbrev used : SizeClassed ℕ
used = record made {
  slabs = set slabs 1 (record (Untyped.new 32 16 4) { free_head = 4; next_uncarved = 4 });
}

abbrev links : ℕ → Nexts
links c k = if k == 3 then 2 else 0

used-Placed : Placed 64 2 bytes (stack_of 128) used
unfolding Untyped.new
used-Placed = record {
  inside = λ i lt. ground arith;
  size = λ i lt. ground arith;
  apart = λ i j lt top. ground arith;
}

used-Chain : Chain (links 1) 4 (3 ∷ 1 ∷ [])
used-Chain = Chain.link (Chain.link Chain.end)

-- Slot 2 of the second class, at 4160.
class-reuses_freed_example :
    let (s', m') = deallocate 64 2 bytes (stack_of 128) used links 4160 small in
    let (s'', got) = allocate 64 2 bytes (stack_of 128) s' m' small in
    Reused 64 2 bytes (stack_of 128) used links 1 2 (3 ∷ 1 ∷ []) m' s'' got
unfolding Untyped.new slot_ptr
class-reuses_freed_example =
    class-reuses_freed 64 2 bytes (stack_of 128) used links 1 2 (3 ∷ 1 ∷ []) small small used-Placed
      (omega arith) (omega arith) (omega arith) (omega arith) (omega arith) used-Chain
      ((λ e. omega (arith, e)), ((λ e. omega (arith, e)), tt)) picks_the_second
