-- ===== src/Backing/Heap/Tests.antt =====
-- A global allocator that serves one block after the other.
use forge_alloc.Base.{ℕ, ◌+◌, ◌≡◌, refl, arith, none, some}
use forge_alloc.Word.Defs.{is_power_of_two}
use forge_alloc.Core.Layout.{NonZeroLayout, to_layout}
use forge_alloc.Core.Layout.Valid.{IsValid}
use forge_alloc.Core.Range.{Block}
use forge_alloc.Backing.Heap.{Global, HeapBytes, capacity, with_align, drop, with_align-drop}

abbrev stream : Global ℕ
stream = record {
  allocate = λ g l. (g + l.size, some (record { address = 4096 + g; length = l.size }));
  allocate_zeroed = λ g l. (g + l.size, some (record { address = 4096 + g; length = l.size }));
  deallocate = λ g ptr l. g;
}

abbrev words : NonZeroLayout
words = record { size = 24; align = 8 }

refuses_odd_alignment : with_align 64 stream 0 24 12 ≡ (0, none)
unfolding with_align is_power_of_two
refuses_odd_alignment = refl

with_align-drop_example :
    (IsValid 64 words
      → (b : Block) → (stream.allocate 0 (to_layout words)).1 ≡ some b
      → (h : HeapBytes) × (with_align 64 stream 0 24 8
          ≡ ((stream.allocate 0 (to_layout words)).0, some h))
        × (h.ptr ≡ b.address)
        × (capacity h ≡ 24)
        × ((later : ℕ)
            → drop 64 stream later h ≡ stream.deallocate later b.address (to_layout words)))
    × (IsValid 64 words
        → (stream.allocate 0 (to_layout words)).1 ≡ none
        → with_align 64 stream 0 24 8 ≡ ((stream.allocate 0 (to_layout words)).0, none))
    × ((¬ (IsValid 64 words)) → with_align 64 stream 0 24 8 ≡ (0, none))
with_align-drop_example = with_align-drop 64 stream 0 words (omega arith)
