-- ===== src/ExtendableSlab.antt =====
-- crates/forge-alloc/src/layout/extendable_slab.rs: `ExtendableSlab<T, M>`. A segment is a state `S`
-- with the operations of an allocator; `build` is what `build_segment` returns, since the
-- mapping below it comes from the operating system. `others` is what other threads do to the
-- allocator while `allocate` does not hold the lock.
pub mod Search
pub mod Serve
pub mod Room
mod Tests
use forge_alloc.Base.{
  ℕ, zero, suc, ◌+◌, ◌-◌, ◌%◌, ◌^◌, Bool, true, false, Option, none, some, List, [], ◌∷◌, ◌++◌,
  length, ltb, if◌then◌else◌, min, max, ◌>>=◌,
}
use forge_alloc.Word.Defs.{checked_add, checked_mul, mask_down}
use forge_alloc.Core.Layout.{NonZeroLayout, TypeLayout}
use forge_alloc.Core.Range.{Block}
use forge_alloc.Core.Allocator.{Allocator}

pub record ExtendableSlab (S : Type 0) : Type 0 where
  pub segments : List S
  pub first_open_hint : ℕ
  pub routing_failures : ℕ

-- An empty allocator.
unfoldable pub with_protection : {S : Type 0} → ExtendableSlab S
with_protection = record { segments = []; first_open_hint = 0; routing_failures = 0 }

-- The bytes that `build_segment` asks the backing for: the slots, and room to align the first.
unfoldable pub segment_bytes : ℕ → TypeLayout → ℕ → Option ℕ
segment_bytes w t capacity =
    let slot_align = max t.align_of 4 in
    let raw_stride = max t.size_of 8 in
    checked_add w raw_stride (slot_align - 1) >>= λ v.
    checked_mul w (mask_down w v slot_align) capacity >>= λ total.
    checked_add w total (slot_align - 1)

-- A find in the rest of a list.
abbrev pub shift : Option (ℕ × Block) → Option (ℕ × Block)
shift none = none
shift (some (i, b)) = some (suc i, b)

module _ {S : Type 0} (al : Allocator S) where
  -- The segments in order until one serves: its index and the block.
  unfoldable pub try_all : List S → NonZeroLayout → List S × Option (ℕ × Block)
  try_all [] l = ([], none)
  try_all (s ∷ ss) l =
      let (s', got) = al.allocate s l in
      let (rest, found) = try_all ss l in
      elim got [ none ↦ (s' ∷ rest, shift found) | some b ↦ (s' ∷ ss, some (0, b)) ]

  -- Without the first `k` segments.
  unfoldable pub skip_try : ℕ → List S → NonZeroLayout → List S × Option (ℕ × Block)
  unfolding try_all
  skip_try zero ss l = try_all ss l
  skip_try (suc k) [] l = ([], none)
  skip_try (suc k) (s ∷ ss) l = let (rest, found) = skip_try k ss l in (s ∷ rest, shift found)

  -- Only the first `k` segments.
  unfoldable pub take_try : ℕ → List S → NonZeroLayout → List S × Option (ℕ × Block)
  take_try zero ss l = (ss, none)
  take_try (suc k) [] l = ([], none)
  take_try (suc k) (s ∷ ss) l =
      let (s', got) = al.allocate s l in
      let (rest, found) = take_try k ss l in
      elim got [ none ↦ (s' ∷ rest, shift found) | some b ↦ (s' ∷ ss, some (0, b)) ]

  -- The second search of `allocate` under the lock: the segments below the hint.
  unfoldable pub search_below :
      ExtendableSlab S → ℕ → NonZeroLayout → ExtendableSlab S × Option Block
  unfolding take_try
  search_below e start l =
      let (segments, found) = take_try start e.segments l in
      elim found [
        | none ↦ (record e { segments = segments }, none)
        | some (i, b) ↦
            (record e { segments = segments; first_open_hint = min e.first_open_hint i }, some b)
      ]

  -- Both searches: from the hint on, then below it.
  unfoldable pub search : ExtendableSlab S → NonZeroLayout → ExtendableSlab S × Option Block
  unfolding skip_try search_below
  search e l =
      let start = min e.first_open_hint (length e.segments) in
      let (segments, found) = skip_try start e.segments l in
      elim found [
        | none ↦ search_below (record e { segments = segments }) start l
        | some (i, b) ↦ (
          record e {
            segments = segments;
            first_open_hint = if ltb start i then max e.first_open_hint i else e.first_open_hint;
          },
          some b,
        )
      ]

  -- The new segment serves and joins the others.
  unfoldable pub push_segment :
      ExtendableSlab S → S → NonZeroLayout → ExtendableSlab S × Option Block
  push_segment e seg l =
      let (seg', got) = al.allocate seg l in
      elim got [
        | none ↦ (e, none)
        | some b ↦ (
          record e { segments = e.segments ++ seg' ∷ []; first_open_hint = length e.segments },
          some b,
        )
      ]

  -- With the lock again: the segments that others added, then the new one.
  unfoldable pub extend : ExtendableSlab S → ℕ → S → NonZeroLayout → ExtendableSlab S × Option Block
  unfolding push_segment skip_try
  extend e len_before seg l =
      let (segments, found) = skip_try len_before e.segments l in
      elim found [
        | none ↦ push_segment (record e { segments = segments }) seg l
        | some (i, b) ↦
            (record e { segments = segments; first_open_hint = max e.first_open_hint i }, some b)
      ]

  unfoldable pub allocate :
      Option S
      → (ExtendableSlab S → ExtendableSlab S)
      → ExtendableSlab S
      → NonZeroLayout
      → ExtendableSlab S × Option Block
  unfolding search extend
  allocate build others e l =
      let (e', got) = search e l in
      elim got [
        | some b ↦ (e', some b)
        | none ↦ elim build [
          | none ↦ (others e', none)
          | some seg ↦ extend (others e') (length e'.segments) seg l
        ]
      ]

  module _ (contains : S → ℕ → Bool) where
    -- The first segment that contains the pointer takes it back: the segments and its index.
    unfoldable pub free_in : List S → ℕ → NonZeroLayout → Option (List S × ℕ)
    free_in [] p l = none
    free_in (s ∷ ss) p l =
        let rest = free_in ss p l in
        if contains s p
        then some (al.deallocate s p l ∷ ss, 0)
        else rest >>= λ x. some (s ∷ x.0, suc x.1)

    -- The counter of `w` bits wraps.
    unfoldable pub deallocate : ℕ → ExtendableSlab S → ℕ → NonZeroLayout → ExtendableSlab S
    unfolding free_in
    deallocate w e p l = elim (free_in e.segments p l) [
      | some (segments, i) ↦ record e {
        segments = segments;
        first_open_hint = min e.first_open_hint i;
      }
      | none ↦ record e { routing_failures = (e.routing_failures + 1) % 2 ^ w }
    ]
