-- ===== src/Generational.antt =====
-- crates/forge-alloc/src/layout/generational.rs: `GenerationalSlab<T, B, G>`, the release build. `g` is
-- the width of the generation, 32 or 64. The slots, which the code keeps in a block of the backing, are
-- a function from the index.
pub mod Handles
pub mod Removal
pub mod Retired
mod Tests
use forge_alloc.Base.{
  ℕ, ◌+◌, ◌%◌, ◌^◌, not, Option, none, some, ltb, leb, ◌==◌, if◌then◌else◌, ◌>>=◌, ◌>>◌, guard,
}
use forge_alloc.Word.Defs.{wrapping_sub}
use forge_alloc.Core.Layout.{NonZeroLayout, TypeLayout, array}
use forge_alloc.Core.Range.{FixedRange, Block}
use forge_alloc.Core.Allocator.{Allocator}

-- `GenerationInt::wrapping_inc`
unfoldable pub wrapping_inc : ℕ → ℕ → ℕ
wrapping_inc g generation = (generation + 1) % 2 ^ g

pub record Handle : Type 0 where
  pub index : ℕ
  pub generation : ℕ

pub data SlotState (T : Type 0) : Type 0 where
  occupied : T → SlotState T
  free : Option ℕ → SlotState T

pub record GenerationalSlot (T : Type 0) : Type 0 where
  pub generation : ℕ
  pub state : SlotState T

pub record GenerationalSlab (T B : Type 0) : Type 0 where
  pub backing : B
  pub slots_offset : ℕ
  pub capacity : ℕ
  pub free_head : Option ℕ
  pub len : ℕ
  pub backing_layout : NonZeroLayout
  pub slots : ℕ → GenerationalSlot T

-- The value of an occupied slot.
unfoldable pub value_of : {T : Type 0} → SlotState T → Option T
value_of (occupied v) = some v
value_of (free next) = none

-- The constructor; `t` is the layout of a slot.
module _ (w : ℕ) (T : Type 0) {B : Type 0} (r : FixedRange B) (al : Allocator B)
    (t : TypeLayout) where
  unfoldable pub with_generation : ℕ → B → Option (GenerationalSlab T B)
  with_generation capacity backing = do
    guard (not (capacity == 0))
    guard (ltb capacity (2 ^ 32))
    l ← array w t capacity
    block ← (al.allocate backing l).1
    some (record {
      backing = (al.allocate backing l).0;
      slots_offset = wrapping_sub w block.address (r.base (al.allocate backing l).0);
      capacity = capacity;
      free_head = none;
      len = 0;
      backing_layout = l;
      slots = λ i. record { generation = 0; state = free none };
    })

module _ {T B : Type 0} where
  -- A write of slot `idx`.
  abbrev pub write_slot : GenerationalSlab T B → ℕ → GenerationalSlot T → GenerationalSlab T B
  write_slot s idx slot = record s { slots = λ i. if i == idx then slot else s.slots i }

  -- A head out of range is abandoned.
  unfoldable pub check_head : GenerationalSlab T B → GenerationalSlab T B
  check_head s = elim s.free_head [
    | none ↦ s
    | some idx ↦ if leb s.capacity idx then record s { free_head = none } else s
  ]

  -- The end of `insert`: the value goes into slot `idx`, whose generation goes into the handle.
  unfoldable pub fill : GenerationalSlab T B → ℕ → T → GenerationalSlab T B × Option Handle
  fill s idx v = (
    write_slot s idx (record { generation = (s.slots idx).generation; state = occupied v }),
    some (record { index = idx; generation = (s.slots idx).generation }),
  )

  -- The head of the free list, in the state that its slot has.
  unfoldable pub pop_slot :
      GenerationalSlab T B → ℕ → SlotState T → T → GenerationalSlab T B × Option Handle
  unfolding fill
  pop_slot s idx (free next) v = fill (record s { free_head = next }) idx v
  pop_slot s idx (occupied u) v = (s, none)

  -- The slot comes from the head of the free list, or is the next one that was never used.
  unfoldable pub insert_at :
      GenerationalSlab T B → Option ℕ → T → GenerationalSlab T B × Option Handle
  unfolding fill pop_slot
  insert_at s (some idx) v = pop_slot s idx (s.slots idx).state v
  insert_at s none v =
      if leb s.capacity s.len then (s, none) else fill (record s { len = s.len + 1 }) s.len v

  unfoldable pub insert : GenerationalSlab T B → T → GenerationalSlab T B × Option Handle
  unfolding check_head insert_at
  insert s v = insert_at (check_head s) (check_head s).free_head v

  unfoldable pub get : GenerationalSlab T B → Handle → Option T
  unfolding value_of
  get s h =
      if leb s.capacity h.index
      then none
      else if (s.slots h.index).generation == h.generation
      then value_of (s.slots h.index).state
      else none

  -- The slab that `remove` leaves where the generation matches: a slot whose generation wraps is
  -- retired, any other heads the free list.
  unfoldable pub vacate : ℕ → GenerationalSlab T B → ℕ → GenerationalSlab T B
  unfolding wrapping_inc
  vacate g s idx =
      let next = wrapping_inc g (s.slots idx).generation in
      if next == 0
      then write_slot s idx (record { generation = next; state = free none })
      else write_slot (record s { free_head = some idx }) idx
          (record { generation = next; state = free s.free_head })

  unfoldable pub remove : ℕ → GenerationalSlab T B → Handle → GenerationalSlab T B × Option T
  unfolding value_of vacate
  remove g s h =
      if leb s.capacity h.index
      then (s, none)
      else if (s.slots h.index).generation == h.generation
      then (vacate g s h.index, value_of (s.slots h.index).state)
      else (s, none)
