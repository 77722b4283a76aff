-- ===== src/Bump/Typed.antt =====
-- The typed methods: `alloc_uninit`, `alloc`, `alloc_slice_copy` and `alloc_str`.
use mathlib.Core.Option
use mathlib.Core.Path.{subst₂}
use native.Mathlib.Nat.{mul_comm}
use forge_alloc.Base.{
  ℕ, zero, suc, false, subst, ◌∙◌, ◌+◌, ◌*◌, ◌^◌, ◌≤◌, ◌<◌, ◌≡◌, refl, sym, arith, inl, inr, some,
  Option-cases, ◌==◌, ◌||◌,
}
use forge_alloc.Word.Align.{IsAligned}
use forge_alloc.Core.Layout.{NonZeroLayout, TypeLayout, array}
use forge_alloc.Core.Layout.Pad.{array_lem}
use forge_alloc.Core.Memory.{Memory, copy, copy_copied, copy_kept}
use forge_alloc.Core.Range.{FixedRange, IsFixed, Block}
use forge_alloc.Cursor.{place}
use forge_alloc.Bump.{BumpArena, allocate, alloc_uninit, alloc_slice_copy}
use forge_alloc.Bump.Allocate.{IsValid, Issued, allocate-Issued}

abbrev layout_of : TypeLayout → NonZeroLayout
layout_of t = record { size = t.size_of; align = t.align_of }

nonzero_factors : (n k : ℕ) → 1 ≤ n * k → (1 ≤ n) × (1 ≤ k)
nonzero_factors zero k h = absurd (omega arith)
nonzero_factors (suc n) zero h = absurd (omega arith)
nonzero_factors (suc n) (suc k) h = (omega arith, omega arith)

module _ (w : ℕ) {B : Type 0} (r : FixedRange B) where
  -- For a type of nonzero size the typed path does what `allocate` does with the layout of the type,
  -- to the arena and to the address.
  pub alloc_uninit-allocate :
      (a : BumpArena B) (t : TypeLayout)
      → 1 ≤ t.size_of
      → ((alloc_uninit w r a t).0 ≡ (allocate w r a (layout_of t)).0)
        × ((alloc_uninit w r a t).1
            ≡ Option.map (λ (b : Block). b.address) (allocate w r a (layout_of t)).1)
  unfolding alloc_uninit allocate
  alloc_uninit-allocate a t h =
      elim (Option-cases (place w (r.base a.backing) a.cursor a.capacity (layout_of t))) [
        | inl full ↦ (ground (arith, full), ground (arith, full))
        | inr ((offset, end), at) ↦ elim (Option-cases (r.commit a.backing offset t.size_of).1) [
          | inl refused ↦ (ground (arith, at, refused), ground (arith, at, refused))
          | inr (_, ok) ↦ (ground (arith, at, ok), ground (arith, at, ok))
        ]
      ]

  module _ (fixed : IsFixed r) (a : BumpArena B) (m : Memory) (t : TypeLayout) (v : IsValid w r a)
      (ta : t.align_of < 2 ^ w) (padded : IsAligned t.size_of t.align_of) where
    slice-some :
        (src n : ℕ) {a' : BumpArena B} {m' : Memory} {b : Block}
        → 1 ≤ n * t.size_of
        → alloc_slice_copy w r a m t src n ≡ (a', m', some b)
        → (l : NonZeroLayout) × (d : Block) × (array w t n ≡ some l)
          × (allocate w r a l ≡ (a', some d))
          × (m' ≡ copy src d.address (n * t.size_of) m)
          × (b ≡ record { address = d.address; length = n * t.size_of })
    unfolding alloc_slice_copy
    slice-some src n h e =
        let (hn, hs) = nonzero_factors n t.size_of h in
        let some_bytes : ((n == 0) || (t.size_of == 0)) ≡ false = ground (arith, hn, hs) in
        elim (Option-cases (array w t n)) [
          | inl over ↦ absurd (ground (arith, e, some_bytes, over))
          | inr (l, sized) ↦ elim (Option-cases (allocate w r a l).1) [
            | inl full ↦ absurd (ground (arith, e, some_bytes, sized, full))
            | inr (d, got) ↦ (
              l,
              d,
              sized,
              ground (arith, e, some_bytes, sized, got),
              ground (arith, e, some_bytes, sized, got),
              ground (arith, e, some_bytes, sized, got),
            )
          ]
        ]

    -- A slice copy of at least one byte that succeeds returns an aligned block of exactly `n` values, with the bytes of the
    -- source, and changes no byte before the old cursor; the block ends at the new cursor.
    pub alloc_slice_copy_lem :
        (src n : ℕ) {a' : BumpArena B} {m' : Memory} {b : Block}
        → 1 ≤ n * t.size_of
        → alloc_slice_copy w r a m t src n ≡ (a', m', some b)
        → (b.length ≡ n * t.size_of)
          × IsAligned b.address t.align_of
          × ((i : ℕ) → i < n * t.size_of → m' (b.address + i) ≡ m (src + i))
          × ((x : ℕ) → x < r.base a.backing + a.cursor → m' x ≡ m x)
          × (b.address + b.length ≡ r.base a.backing + a'.cursor)
          × IsValid w r a'
    alloc_slice_copy_lem src n {a'} {m'} {b} h e =
        let (l, d, sized, got, em, eb) = slice-some src n h e in
        let (lv, ls, la) = array_lem w t n ta padded sized in
        let i : Issued w r a l a' d = allocate-Issued w r fixed a l v lv.power got in
        let total : l.size ≡ n * t.size_of = ls ∙ mul_comm t.size_of n in
        subst₂
          (λ (m₁ : Memory) (b₁ : Block).
            (b₁.length ≡ n * t.size_of)
            × IsAligned b₁.address t.align_of
            × ((k : ℕ) → k < n * t.size_of → m₁ (b₁.address + k) ≡ m (src + k))
            × ((x : ℕ) → x < r.base a.backing + a.cursor → m₁ x ≡ m x)
            × (b₁.address + b₁.length ≡ r.base a.backing + a'.cursor)
            × IsValid w r a')
          (sym em) (sym eb)
          (
            refl,
            subst (IsAligned d.address) la i.aligned,
            λ k hk. copy_copied src d.address (n * t.size_of) m k hk,
            λ x hx. copy_kept src d.address (n * t.size_of) m x (inl (omega (arith, hx, i.after))),
            omega (arith, i.cursor, i.length, total),
            i.valid,
          )
