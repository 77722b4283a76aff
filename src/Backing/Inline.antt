-- ===== src/Backing/Inline.antt =====
-- crates/forge-alloc/src/backing/inline.rs: `InlineBacked<N>`. The address of the storage is a field,
-- since it is where the value stands; `capacity` is the const parameter `N`.
mod Tests
use mathlib.Core.Path.{subst₂}
use forge_alloc.Base.{
  ℕ, ◌+◌, ◌-◌, ◌%◌, ◌^◌, ◌≤◌, ◌<◌, ◌≡◌, refl, sym, arith, Option, none, some, ltb, if◌then◌else◌,
  Option-cases, Bool-cases, inl, inr,
}
use forge_alloc.Word.Align.{IsAlign, IsAligned}
use forge_alloc.Core.Layout.{NonZeroLayout}
use forge_alloc.Core.Range.{FixedRange, IsFixed, Block, commit_default}
use forge_alloc.Core.Allocator.{Allocator}
use forge_alloc.Cursor.{place, Fits, place-Fits}

pub record InlineBacked : Type 0 where
  pub storage : ℕ
  pub capacity : ℕ
  pub cursor : ℕ

-- `MAX_ALIGN`
abbrev pub max_align : ℕ
max_align = 16

-- A fresh value at the address `storage`.
unfoldable pub new : ℕ → ℕ → InlineBacked
new storage n = record { storage = storage; capacity = n; cursor = 0 }

unfoldable pub allocated : InlineBacked → ℕ
allocated b = b.cursor

unfoldable pub remaining : InlineBacked → ℕ
remaining b = b.capacity - b.cursor

unfoldable pub reset : InlineBacked → InlineBacked
reset b = record b { cursor = 0 }

unfoldable pub allocate : ℕ → InlineBacked → NonZeroLayout → InlineBacked × Option Block
allocate w b l =
    if ltb max_align l.align then (b, none) else elim (place w b.storage b.cursor b.capacity l) [
      | none ↦ (b, none)
      | some (offset, end) ↦ (
        record b { cursor = end },
        some (record { address = b.storage + offset; length = l.size }),
      )
    ]

-- `impl FixedRange for InlineBacked<N>`, with the default `commit`.
abbrev pub inline_range : FixedRange InlineBacked
inline_range = record { base = λ b. b.storage; size = λ b. b.capacity; commit = commit_default }

pub inline-IsFixed : IsFixed inline_range
inline-IsFixed = record { base-commit = λ b o n. refl; size-commit = λ b o n. refl }

pub record IsValid (w : ℕ) (b : InlineBacked) : Type 0 where
  pub inside : b.storage + b.capacity < 2 ^ w
  pub below : b.cursor ≤ b.capacity

-- A block of an inline buffer is aligned, lies behind the old cursor and inside the buffer, ends at
-- the new cursor, and its alignment is at most 16; the buffer stays where it was, and valid.
pub inline-allocate :
    (w : ℕ) (b : InlineBacked) (l : NonZeroLayout) {b' : InlineBacked} {got : Block}
    → IsValid w b
    → IsAlign w l.align
    → allocate w b l ≡ (b', some got)
    → IsAligned got.address l.align
      × (got.length ≡ l.size)
      × (b.storage + b.cursor ≤ got.address)
      × (got.address + got.length ≡ b'.storage + b'.cursor)
      × (l.align ≤ max_align)
      × (b'.storage ≡ b.storage)
      × (b'.capacity ≡ b.capacity)
      × IsValid w b'
unfolding allocate
inline-allocate w b l {b'} {got} v al e = elim (Bool-cases (ltb max_align l.align)) [
  | inl wide ↦ absurd (ground (arith, e, wide))
  | inr narrow ↦ elim (Option-cases (place w b.storage b.cursor b.capacity l)) [
    | inl full ↦ absurd (ground (arith, e, narrow, full))
    | inr ((offset, end), at) ↦
        let f : Fits b.storage b.cursor b.capacity l offset end =
          place-Fits w b.storage b.cursor b.capacity l v.inside v.below al at in
        let eb : b' ≡ record b { cursor = end } = ground (arith, e, narrow, at) in
        let eg : got ≡ record { address = b.storage + offset; length = l.size } =
          ground (arith, e, narrow, at) in
        subst₂
          (λ (x : InlineBacked) (y : Block).
            IsAligned y.address l.align
            × (y.length ≡ l.size)
            × (b.storage + b.cursor ≤ y.address)
            × (y.address + y.length ≡ x.storage + x.cursor)
            × (l.align ≤ max_align)
            × (x.storage ≡ b.storage)
            × (x.capacity ≡ b.capacity)
            × IsValid w x)
          (sym eb) (sym eg)
          (
            f.aligned,
            refl,
            omega (arith, f.after),
            omega (arith, f.ends),
            ground (arith, narrow),
            refl,
            refl,
            record { inside = v.inside; below = f.within },
          )
  ]
]

-- `impl Allocator for InlineBacked<N>`: a free does nothing.
abbrev pub inline_allocator : ℕ → Allocator InlineBacked
inline_allocator w = record { allocate = allocate w; deallocate = λ b ptr l. b }
