-- ===== src/Slab.antt =====
-- crates/forge-alloc/src/layout/slab.rs: `Slab<T, B, M>`, the release build (the `debug_assert!`s
-- are left out). `Links` is memory as the slab reads it: the `FreeLink` in the first eight bytes of
-- each slot. A method through `&self` returns the new slab beside its result.
pub mod Index
pub mod Make
pub mod Chain
pub mod Honest
pub mod Run
pub mod Attack
pub mod Order
pub mod Release
mod Tests
use forge_alloc.Base.{
  ℕ, zero, suc, ◌+◌, ◌-◌, ◌*◌, ◌/◌, ◌%◌, ◌^◌, ◌≤◌, bit_and, Bool, true, false, not, Option, none,
  some, ltb, leb, ◌==◌, ◌&&◌, if◌then◌else◌, ◌>>=◌, ◌>>◌, guard, max,
}
use forge_alloc.Word.Defs.{
  checked_add, checked_mul, checked_sub, mask_down, is_power_of_two, trailing_zeros,
}
use forge_alloc.Word.Align.{align_up}
use forge_alloc.Core.Layout.{NonZeroLayout, TypeLayout, from_size_align}
use forge_alloc.Core.Range.{FixedRange, Block}
use forge_alloc.Core.Allocator.{Allocator}
use forge_alloc.Core.Freelist.{FreelistProtection}

pub record FreeLink : Type 0 where
  pub next_idx : ℕ
  pub mac : ℕ

-- The layout of `FreeLink`: two `u32`.
abbrev pub link_type : TypeLayout
link_type = record { size_of = 8; align_of = 4 }

abbrev pub Links : Type 0
Links = ℕ → FreeLink

-- A write of the link in slot `idx`.
abbrev pub write_link : Links → ℕ → FreeLink → Links
write_link m idx link i = if i == idx then link else m i

pub record Slab (B M : Type 0) : Type 0 where
  pub backing : B
  pub mac : M
  pub base_offset : ℕ
  pub free_head : ℕ
  pub next_uncarved : ℕ
  pub block_stride : ℕ
  pub stride_shift : ℕ
  pub capacity : ℕ
  pub backing_layout : NonZeroLayout
  pub corruption_events : ℕ

-- `max(align_of::<T>(), align_of::<FreeLink>())`
abbrev pub slot_align : TypeLayout → ℕ
slot_align t = max t.align_of link_type.align_of

-- The stride: the larger of the two sizes, rounded up to the alignment.
unfoldable pub stride_of : ℕ → TypeLayout → Option ℕ
stride_of w t = align_up w (max t.size_of link_type.size_of) (slot_align t)

-- `block_stride.trailing_zeros()` of a power of two, else 0.
unfoldable pub shift_of : ℕ → ℕ → ℕ
unfolding is_power_of_two trailing_zeros
shift_of w stride = if is_power_of_two w stride then trailing_zeros w stride else 0

module _ (w : ℕ) {B M : Type 0} (r : FixedRange B) (al : Allocator B) (t : TypeLayout) where
  -- The part of the construction behind the block from the backing.
  unfoldable pub build : ℕ → B → M → ℕ → NonZeroLayout → Block → Option (Slab B M)
  build capacity backing mac stride l block = do
    base_offset ← checked_sub block.address (r.base backing)
    some (record {
      backing = backing;
      mac = mac;
      base_offset = base_offset;
      free_head = 0;
      next_uncarved = 0;
      block_stride = stride;
      stride_shift = shift_of w stride;
      capacity = capacity;
      backing_layout = l;
      corruption_events = 0;
    })

  unfoldable pub with_protection : ℕ → B → M → Option (Slab B M)
  with_protection capacity backing mac = do
    guard (not (capacity == 0))
    guard (not (t.size_of == 0))
    guard (ltb capacity (2 ^ 32))
    stride ← stride_of w t
    total ← checked_mul w stride capacity
    l ← from_size_align w total (slot_align t)
    block ← (al.allocate backing l).1
    build capacity (al.allocate backing l).0 mac stride l block

module _ {B M : Type 0} (r : FixedRange B) where
  unfoldable pub base_ptr : Slab B M → ℕ
  base_ptr s = r.base s.backing + s.base_offset

  unfoldable pub slot_ptr : Slab B M → ℕ → ℕ
  slot_ptr s idx = base_ptr s + idx * s.block_stride

  -- The index and the remainder of an offset, by a shift and a mask where the stride is a power of
  -- two.
  unfoldable pub split_offset : Slab B M → ℕ → ℕ × ℕ
  split_offset s offset =
      if not (s.stride_shift == 0)
      then (offset / 2 ^ s.stride_shift, bit_and offset (s.block_stride - 1))
      else (offset / s.block_stride, offset % s.block_stride)

  unfoldable pub slot_index : Slab B M → ℕ → Option ℕ
  slot_index s p =
      if ltb p (base_ptr s)
      then none
      else (let (idx, rem) = split_offset s (p - base_ptr s) in
          if not (rem == 0)
          then none
          else if leb s.capacity idx
          then none
          else if ltb idx (2 ^ 32)
          then some idx
          else none)

  -- `size` of the slab as a region, and `capacity_bytes`.
  unfoldable pub size : Slab B M → ℕ
  size s = s.capacity * s.block_stride

  unfoldable pub usable_size : Slab B M → ℕ → NonZeroLayout → Option ℕ
  usable_size s ptr l = some s.block_stride

  -- The region goes back to the backing, which is what the drop does in a release build.
  unfoldable pub drop : Allocator B → Slab B M → B
  drop al s = al.deallocate s.backing (base_ptr s) s.backing_layout

  module _ (p : FreelistProtection M) where
    -- The push of slot `idx`.
    unfoldable pub push : Slab B M → Links → ℕ → Slab B M × Links
    push s m idx = (
      record s { free_head = idx + 1 },
      write_link m idx (record { next_idx = s.free_head; mac = p.sign s.mac s.free_head idx }),
    )

    unfoldable pub deallocate : Slab B M → Links → ℕ → NonZeroLayout → Slab B M × Links
    deallocate s m ptr l = elim (slot_index s ptr) [ none ↦ (s, m) | some idx ↦ push s m idx ]

    -- A block is a slot, of the whole stride.
    unfoldable pub slot_block : Slab B M → ℕ → Block
    slot_block s idx = record { address = slot_ptr s idx; length = s.block_stride }

    unfoldable pub carve : Slab B M → Slab B M × Option Block
    unfolding slot_block
    carve s =
        if leb s.capacity s.next_uncarved
        then (s, none)
        else (record s { next_uncarved = s.next_uncarved + 1 }, some (slot_block s s.next_uncarved))

    -- What `allocate` accepts of the link that it reads in slot `idx`.
    unfoldable pub link_ok : Slab B M → Links → ℕ → Bool
    link_ok s m idx =
        p.verify s.mac (m idx).next_idx (m idx).mac idx && leb (m idx).next_idx s.capacity

    -- `allocate` after the checks of the layout. The counter of `w` bits wraps.
    unfoldable pub take_slot : ℕ → Slab B M → Links → Slab B M × Option Block
    unfolding slot_block carve link_ok
    take_slot w s m =
        if s.free_head == 0
        then carve s
        else if link_ok s m (s.free_head - 1)
        then (
          record s { free_head = (m (s.free_head - 1)).next_idx },
          some (slot_block s (s.free_head - 1)),
        )
        else carve
            (record s { free_head = 0; corruption_events = (s.corruption_events + 1) % 2 ^ w })

    unfoldable pub allocate :
        ℕ → TypeLayout → Slab B M → Links → NonZeroLayout → Slab B M × Option Block
    unfolding take_slot
    allocate w t s m l =
        if ltb (slot_align t) l.align
        then (s, none)
        else if ltb s.block_stride l.size
        then (s, none)
        else take_slot w s m
