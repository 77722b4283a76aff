-- ===== src/ExtendableSlab/Room.antt =====
-- The bytes of a segment are enough for its slab.
use forge_alloc.Base.{ℕ, ◌+◌, ◌-◌, ◌*◌, ◌≤◌, ◌≡◌, arith, some, max}
use forge_alloc.Word.Defs.{checked_mul, mask_down}
use forge_alloc.Word.Align.{Rounds, align_up}
use forge_alloc.Core.Layout.{TypeLayout}
use forge_alloc.Slab.{slot_align, stride_of}
use forge_alloc.ExtendableSlab.{segment_bytes}

-- Where `build_segment` finds the number of bytes to ask for, the slab computes a stride and a size of all
-- slots for its part, and from the first address of the region, rounded up to the alignment of the
-- slots, the slots end within those bytes, wherever the region starts.
pub segment_bytes-stride_of :
    (w : ℕ) (t : TypeLayout) (capacity n base first : ℕ)
    → segment_bytes w t capacity ≡ some n
    → Rounds base (slot_align t) first
    → (stride : ℕ) × (total : ℕ) × (stride_of w t ≡ some stride)
      × (checked_mul w stride capacity ≡ some total)
      × (first + total ≤ base + n)
unfolding segment_bytes stride_of align_up
segment_bytes-stride_of w t capacity n base first e r =
    let stride : ℕ = mask_down w (max t.size_of 8 + (max t.align_of 4 - 1)) (max t.align_of 4) in
    (stride, stride * capacity, ground (arith, e), ground (arith, e), ground (arith, e, r.near))
