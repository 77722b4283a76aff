-- ===== src/SizeClassed/Untyped.antt =====
-- `UntypedSlab`: a slab with a stride that is known at run time and links of four bytes with no tag.
-- `Nexts` is memory as the slab reads it: the `next_idx` in each slot.
pub mod Same
mod Tests
use forge_alloc.Base.{
  ℕ, ◌+◌, ◌-◌, ◌*◌, ◌/◌, ◌%◌, ◌^◌, Bool, Option, none, some, ltb, leb, ◌==◌, not, if◌then◌else◌,
}

abbrev pub Nexts : Type 0
Nexts = ℕ → ℕ

abbrev pub write_next : Nexts → ℕ → ℕ → Nexts
write_next m idx next i = if i == idx then next else m i

pub record UntypedSlab : Type 0 where
  pub base_offset : ℕ
  pub block_stride : ℕ
  pub capacity : ℕ
  pub free_head : ℕ
  pub next_uncarved : ℕ
  pub corruption_events : ℕ

unfoldable pub new : ℕ → ℕ → ℕ → UntypedSlab
new base_offset block_stride capacity = record {
  base_offset = base_offset;
  block_stride = block_stride;
  capacity = capacity;
  free_head = 0;
  next_uncarved = 0;
  corruption_events = 0;
}

unfoldable pub base_ptr : UntypedSlab → ℕ → ℕ
base_ptr s backing_base = backing_base + s.base_offset

unfoldable pub slot_ptr : UntypedSlab → ℕ → ℕ → ℕ
unfolding base_ptr
slot_ptr s backing_base idx = base_ptr s backing_base + idx * s.block_stride

unfoldable pub slot_index : UntypedSlab → ℕ → ℕ → Option ℕ
unfolding base_ptr
slot_index s backing_base p =
    let base = base_ptr s backing_base in
    let offset = p - base in
    if ltb p base
    then none
    else if not (offset % s.block_stride == 0)
    then none
    else if leb s.capacity (offset / s.block_stride)
    then none
    else if ltb (offset / s.block_stride) (2 ^ 32)
    then some (offset / s.block_stride)
    else none

-- The end of `allocate_slot`: a slot that was never used.
unfoldable pub carve : UntypedSlab → ℕ → UntypedSlab × Option ℕ
unfolding slot_ptr
carve s backing_base = if leb s.capacity s.next_uncarved then (s, none) else (
  record s { next_uncarved = s.next_uncarved + 1 },
  some (slot_ptr s backing_base s.next_uncarved),
)

-- The counter of `w` bits wraps.
unfoldable pub record_corruption : ℕ → UntypedSlab → UntypedSlab
record_corruption w s = record s { corruption_events = (s.corruption_events + 1) % 2 ^ w }

unfoldable pub allocate_slot : ℕ → UntypedSlab → Nexts → ℕ → UntypedSlab × Option ℕ
unfolding carve slot_ptr record_corruption
allocate_slot w s m backing_base =
    let next_idx = m (s.free_head - 1) in
    if s.free_head == 0
    then carve s backing_base
    else if ltb s.capacity next_idx
    then carve (record (record_corruption w s) { free_head = 0 }) backing_base
    else (record s { free_head = next_idx }, some (slot_ptr s backing_base (s.free_head - 1)))

unfoldable pub free_slot : ℕ → UntypedSlab → Nexts → ℕ → ℕ → UntypedSlab × Nexts
unfolding slot_index record_corruption
free_slot w s m backing_base p = elim (slot_index s backing_base p) [
  | none ↦ (record_corruption w s, m)
  | some idx ↦ (record s { free_head = idx + 1 }, write_next m idx s.free_head)
]
