-- ===== src/ExtendableSlab/Tests.antt =====
-- Segments that are the number of their free slots; the block tells how many were free. A segment
-- contains the addresses of the slots that it has handed out, at most ten.
use forge_alloc.Base.{
  ℕ, ◌+◌, ◌-◌, ◌≤◌, ◌≡◌, refl, arith, Bool, Option, none, some, [], ◌∷◌, length, All, ltb, ◌==◌,
  if◌then◌else◌,
}
use forge_alloc.Word.Defs.{checked_mul, mask_down}
use forge_alloc.Core.Layout.{NonZeroLayout, TypeLayout}
use forge_alloc.Core.Range.{Block}
use forge_alloc.Core.Allocator.{Allocator}
use forge_alloc.Slab.{stride_of}
use forge_alloc.ExtendableSlab.{ExtendableSlab, search, allocate, segment_bytes}
use forge_alloc.ExtendableSlab.Search.{Refuses}
use forge_alloc.ExtendableSlab.Serve.{allocate_serves}
use forge_alloc.ExtendableSlab.Room.{segment_bytes-stride_of}

abbrev slots : Allocator ℕ
slots = record {
  allocate = λ s l.
      if s == 0 then (s, none) else (s - 1, some (record { address = 4096 + s; length = l.size }));
  deallocate = λ s ptr l. s + 1;
}

abbrev word : NonZeroLayout
word = record { size = 8; align = 8 }

-- The first segment has room, the second is full, and the hint stands past both.
abbrev two : ExtendableSlab ℕ
two = record { segments = 1 ∷ 0 ∷ []; first_open_hint = 2; routing_failures = 0 }

serves_below_the_hint :
    (allocate slots none (λ e. e) two word).1 ≡ some (record { address = 4097; length = 8 })
unfolding allocate
serves_below_the_hint = refl

allocate_serves_example :
    ((¬ (All (Refuses slots word) (1 ∷ 0 ∷ [])))
      → (b : Block) × ((allocate slots (some 4) (λ e. e) two word).1 ≡ some b)
        × (length (allocate slots (some 4) (λ e. e) two word).0.segments ≡ 2))
    × (All (Refuses slots word) (1 ∷ 0 ∷ [])
        → (seg : ℕ) → some 4 ≡ some seg
        → (b : Block) → (slots.allocate seg word).1 ≡ some b
        → (c : Block) × ((allocate slots (some 4) (λ e. e) two word).1 ≡ some c)
          × (length (allocate slots (some 4) (λ e. e) two word).0.segments
              ≤ length (search slots two word).0.segments + 1))
    × (All (Refuses slots word) (1 ∷ 0 ∷ [])
        → ◌≡◌ {A = Option ℕ} (some 4) none
        → (allocate slots (some 4) (λ e. e) two word).1 ≡ none)
allocate_serves_example = allocate_serves slots (some 4) (λ e. e) two word

-- The first segment contains the addresses below 5000.
abbrev below : ℕ → ℕ → Bool
below s p = ltb p 5000

abbrev large : TypeLayout
large = record { size_of = 24; align_of = 16 }

asks_for_its_slack : segment_bytes 64 large 4 ≡ some 143
unfolding segment_bytes mask_down
asks_for_its_slack = refl

segment_bytes-stride_of_example :
    (stride : ℕ) × (total : ℕ) × (stride_of 64 large ≡ some stride)
    × (checked_mul 64 stride 4 ≡ some total)
    × (4112 + total ≤ 4100 + 143)
segment_bytes-stride_of_example =
    segment_bytes-stride_of 64 large 4 143 4100 4112 asks_for_its_slack
      (record { above = omega arith; near = omega arith; aligned = refl })
