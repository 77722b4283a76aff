-- ===== src/Bump.antt =====
-- crates/forge-alloc/src/layout/bump.rs: `BumpArena<B>` and its `Scope`. A method through `&self`
-- that moves the cursor returns the new arena beside its result; `none` is `AllocError`. Memory
-- is an argument of the methods that copy or write.
pub mod Allocate
pub mod Steps
pub mod Live
pub mod Grow
pub mod Typed
pub mod Scopes
mod Tests
use forge_alloc.Base.{
  ℕ, ◌+◌, ◌-◌, ◌*◌, ◌≤◌, Bool, true, false, Option, none, some, leb, ◌==◌, ◌||◌, if◌then◌else◌,
  ◌>>=◌,
}
use forge_alloc.Word.Defs.{checked_add, wrapping_sub}
use forge_alloc.Core.Layout.{NonZeroLayout, TypeLayout, array}
use forge_alloc.Core.Memory.{Memory, copy, write}
use forge_alloc.Core.Range.{FixedRange, Block}
use forge_alloc.Cursor.{place}

pub record BumpArena (B : Type 0) : Type 0 where
  pub backing : B
  pub capacity : ℕ
  pub cursor : ℕ

pub record Scope (B : Type 0) : Type 0 where
  pub arena : BumpArena B
  pub mark : ℕ

module _ {B : Type 0} where
  unfoldable pub allocated : BumpArena B → ℕ
  allocated a = a.cursor

  -- `capacity - allocated`, which `IsValid` keeps from wrapping.
  unfoldable pub remaining : BumpArena B → ℕ
  remaining a = a.capacity - a.cursor

  unfoldable pub reset : BumpArena B → BumpArena B
  reset a = record a { cursor = 0 }

  unfoldable pub rewind_to : BumpArena B → ℕ → BumpArena B
  rewind_to a mark = record a { cursor = mark }

  unfoldable pub scope : BumpArena B → Scope B
  scope a = record { arena = a; mark = a.cursor }

  -- `Scope::scope`: a scope inside a scope.
  unfoldable pub nested : Scope B → Scope B
  unfolding scope
  nested s = scope s.arena

  -- `Drop for Scope`: the arena is usable again.
  unfoldable pub drop_scope : Scope B → BumpArena B
  unfolding rewind_to
  drop_scope s = rewind_to s.arena s.mark

module _ (w : ℕ) {B : Type 0} (r : FixedRange B) where
  unfoldable pub new : B → Option (BumpArena B)
  new backing = if r.size backing == 0 then none else do
    end ← checked_add w (r.base backing) (r.size backing)
    if end == 0
        then none
        else some (record { backing = backing; capacity = r.size backing; cursor = 0 })

  -- Commit the bytes from `offset` to `end`, then publish the cursor: the common end of the
  -- allocating methods.
  unfoldable pub publish : BumpArena B → ℕ → ℕ → ℕ → BumpArena B × Option (Unit {0})
  publish a offset size end =
      let (b, done) = r.commit a.backing offset size in
      elim done [
        | none ↦ (record a { backing = b }, none)
        | some _ ↦ (record a { backing = b; cursor = end }, some tt)
      ]

  unfoldable pub allocate : BumpArena B → NonZeroLayout → BumpArena B × Option Block
  unfolding publish
  allocate a l = elim (place w (r.base a.backing) a.cursor a.capacity l) [
    | none ↦ (a, none)
    | some (offset, end) ↦
        let (a', done) = publish a offset l.size end in
        elim done [
          | none ↦ (a', none)
          | some _ ↦ (a', some (record { address = r.base a.backing + offset; length = l.size }))
        ]
  ]

  -- `Deallocator::deallocate` does nothing.
  unfoldable pub deallocate : BumpArena B → ℕ → NonZeroLayout → BumpArena B
  deallocate a ptr l = a

  -- `off.checked_add(old.size()) == Some(cur)`
  unfoldable pub is_top : BumpArena B → ℕ → ℕ → Bool
  is_top a offset size = elim (checked_add w offset size) [
    | none ↦ false
    | some end ↦ end == a.cursor
  ]

  -- The fallback of `grow`: a fresh block and a copy of the old bytes.
  unfoldable pub relocate :
      BumpArena B → Memory → ℕ → NonZeroLayout → NonZeroLayout → BumpArena B × Memory × Option Block
  relocate a m ptr old l =
      let (a', got) = allocate a l in
      elim got [ none ↦ (a', m, none) | some dst ↦ (a', copy ptr dst.address old.size m, some dst) ]

  unfoldable pub grow :
      BumpArena B → Memory → ℕ → NonZeroLayout → NonZeroLayout → BumpArena B × Memory × Option Block
  unfolding is_top publish
  grow a m ptr old l =
      let offset = wrapping_sub w ptr (r.base a.backing) in
      if is_top a offset old.size
      then elim (checked_add w offset l.size) [
        | none ↦ (a, m, none)
        | some new_end ↦
            if leb new_end a.capacity
            then (let (a', done) = publish a offset l.size new_end in
                elim done [
                  | none ↦ (a', m, none)
                  | some _ ↦ (a', m, some (record { address = ptr; length = l.size }))
                ])
            else relocate a m ptr old l
      ]
      else relocate a m ptr old l

  -- A pointer to storage for one value; a value of size zero takes the dangling pointer, whose
  -- address is the alignment.
  unfoldable pub alloc_uninit : BumpArena B → TypeLayout → BumpArena B × Option ℕ
  unfolding publish
  alloc_uninit a t =
      if t.size_of == 0
      then (a, some t.align_of)
      else elim (place w (r.base a.backing) a.cursor a.capacity
          (record { size = t.size_of; align = t.align_of })) [
            | none ↦ (a, none)
            | some (offset, end) ↦
                let (a', done) = publish a offset t.size_of end in
                elim done [ none ↦ (a', none) | some _ ↦ (a', some (r.base a.backing + offset)) ]
          ]

  -- `value` is the bytes of the value that is moved in.
  unfoldable pub alloc :
      BumpArena B → Memory → TypeLayout → (ℕ → ℕ) → BumpArena B × Memory × Option ℕ
  alloc a m t value =
      let (a', got) = alloc_uninit a t in
      elim got [ none ↦ (a', m, none) | some p ↦ (a', write p t.size_of value m, some p) ]

  -- `n` values from the address `src` on.
  unfoldable pub alloc_slice_copy :
      BumpArena B → Memory → TypeLayout → ℕ → ℕ → BumpArena B × Memory × Option Block
  alloc_slice_copy a m t src n =
      if n == 0 || t.size_of == 0
      then (a, m, some (record { address = t.align_of; length = n * t.size_of }))
      else elim (array w t n) [
        | none ↦ (a, m, none)
        | some l ↦
            let (a', got) = allocate a l in
            elim got [
              | none ↦ (a', m, none)
              | some dst ↦ (
                a',
                copy src dst.address (n * t.size_of) m,
                some (record { address = dst.address; length = n * t.size_of }),
              )
            ]
      ]

  -- A string is a slice of bytes.
  unfoldable pub alloc_str : BumpArena B → Memory → ℕ → ℕ → BumpArena B × Memory × Option Block
  unfolding alloc_slice_copy
  alloc_str a m src n = alloc_slice_copy a m (record { size_of = 1; align_of = 1 }) src n
