-- ===== src/Bump/Allocate.antt =====
-- What one allocation of a bump arena does, on success and on failure.
use mathlib.Core.Path.{subst₂}
use forge_alloc.Base.{
  ℕ, ◌+◌, ◌-◌, ◌^◌, ◌≤◌, ◌<◌, ◌≡◌, refl, sym, subst, arith, inl, inr, none, some, Option-cases,
}
use forge_alloc.Word.Align.{IsAlign, IsAligned}
use forge_alloc.Core.Layout.{NonZeroLayout}
use forge_alloc.Core.Range.{FixedRange, IsFixed, Block}
use forge_alloc.Cursor.{place, Fits, place-Fits, place-none, Fits-least}
use forge_alloc.Bump.{BumpArena, new, allocate}

module _ (w : ℕ) {B : Type 0} (r : FixedRange B) where
  -- The arena covers its backing, which ends below the top of the address space.
  pub record IsValid (a : BumpArena B) : Type 0 where
    pub covers : a.capacity ≡ r.size a.backing
    pub inside : r.base a.backing + a.capacity < 2 ^ w
    pub below : a.cursor ≤ a.capacity

  -- A new arena is valid and empty.
  pub new-IsValid : (b : B) {a : BumpArena B} → new w r b ≡ some a → IsValid a × (a.cursor ≡ 0)
  unfolding new
  new-IsValid b e = ground arith

  -- What a successful allocation of `l` in `a` returns and leaves.
  pub record Issued (a : BumpArena B) (l : NonZeroLayout) (a' : BumpArena B) (b : Block)
      : Type 0 where
    pub after : r.base a.backing + a.cursor ≤ b.address
    pub near : b.address < r.base a.backing + a.cursor + l.align
    pub aligned : IsAligned b.address l.align
    pub length : b.length ≡ l.size
    pub cursor : r.base a.backing + a'.cursor ≡ b.address + b.length
    pub base : r.base a'.backing ≡ r.base a.backing
    pub valid : IsValid a'

  -- An allocation that succeeds has placed the block and committed it.
  allocate-some :
      (a : BumpArena B) (l : NonZeroLayout) {a' : BumpArena B} {b : Block}
      → allocate w r a l ≡ (a', some b)
      → (offset : ℕ) × (end : ℕ) × (place w (r.base a.backing) a.cursor a.capacity l
          ≡ some (offset, end))
        × (a' ≡ record a { backing = (r.commit a.backing offset l.size).0; cursor = end })
        × (b ≡ record { address = r.base a.backing + offset; length = l.size })
  unfolding allocate
  allocate-some a l e = elim (Option-cases (place w (r.base a.backing) a.cursor a.capacity l)) [
    | inl full ↦ absurd (ground (arith, e, full))
    | inr ((offset, end), at) ↦ elim (Option-cases (r.commit a.backing offset l.size).1) [
      | inl refused ↦ absurd (ground (arith, e, at, refused))
      | inr (_, ok) ↦ (offset, end, at, ground (arith, e, at, ok), ground (arith, e, at, ok))
    ]
  ]

  module _ (fixed : IsFixed r) (a : BumpArena B) (l : NonZeroLayout) (v : IsValid a)
      (al : IsAlign w l.align) where
    -- An allocation that succeeds, of a layout whose alignment is a power of two in a valid arena,
    -- returns a block of the asked size, aligned, at less than one alignment from the old cursor, and
    -- the new cursor stands at its end; the arena stays valid.
    pub allocate-Issued :
        {a' : BumpArena B} {b : Block} → allocate w r a l ≡ (a', some b) → Issued a l a' b
    allocate-Issued {a'} {b} e =
        let (offset, end, at, ea, eb) = allocate-some a l e in
        let f : Fits (r.base a.backing) a.cursor a.capacity l offset end =
          place-Fits w (r.base a.backing) a.cursor a.capacity l v.inside v.below al at in
        let fb : r.base (r.commit a.backing offset l.size).0 ≡ r.base a.backing =
          fixed.base-commit a.backing offset l.size in
        let fs : r.size (r.commit a.backing offset l.size).0 ≡ r.size a.backing =
          fixed.size-commit a.backing offset l.size in
        subst₂ (λ x y. Issued a l x y) (sym ea) (sym eb)
          (record {
            after = omega (arith, f.after);
            near = omega (arith, f.near);
            aligned = f.aligned;
            length = refl;
            cursor = omega (arith, f.ends, fb);
            base = fb;
            valid = record {
              covers = omega (arith, fs, v.covers);
              inside = omega (arith, fb, v.inside);
              below = f.within;
            };
          })

    -- An allocation that fails leaves the cursor, the capacity and the base, and the arena valid.
    pub allocate-fails :
        {a' : BumpArena B}
        → allocate w r a l ≡ (a', none)
        → IsValid a'
          × (a'.cursor ≡ a.cursor)
          × (a'.capacity ≡ a.capacity)
          × (r.base a'.backing ≡ r.base a.backing)
    unfolding allocate
    allocate-fails {a'} e = elim (Option-cases (place w (r.base a.backing) a.cursor a.capacity l)) [
      | inl full ↦
          let same : a' ≡ a = ground (arith, e, full) in subst Kept (sym same) (v, refl, refl, refl)
      | inr ((offset, end), at) ↦ elim (Option-cases (r.commit a.backing offset l.size).1) [
        | inl refused ↦
            let fb : r.base (r.commit a.backing offset l.size).0 ≡ r.base a.backing =
              fixed.base-commit a.backing offset l.size in
            let fs : r.size (r.commit a.backing offset l.size).0 ≡ r.size a.backing =
              fixed.size-commit a.backing offset l.size in
            let same : a' ≡ record a { backing = (r.commit a.backing offset l.size).0 } =
              ground (arith, e, at, refused) in
            subst Kept (sym same) (
              record {
                covers = omega (arith, fs, v.covers);
                inside = omega (arith, fb, v.inside);
                below = v.below;
              },
              refl,
              refl,
              fb,
            )
        | inr (_, ok) ↦ absurd (ground (arith, e, at, ok))
      ]
    ]
      where
        Kept : BumpArena B → Type 0
        Kept x =
            IsValid x
            × (x.cursor ≡ a.cursor)
            × (x.capacity ≡ a.capacity)
            × (r.base x.backing ≡ r.base a.backing)

    -- Where the backing commits and some aligned block of this size lies between the cursor and the
    -- end, the allocation succeeds, at that address or before it.
    pub allocate_complete :
        (address : ℕ)
        → ((offset : ℕ) → (r.commit a.backing offset l.size).1 ≡ some tt)
        → IsAligned address l.align
        → r.base a.backing + a.cursor ≤ address
        → address + l.size ≤ r.base a.backing + a.capacity
        → (b : Block) × ((allocate w r a l).1 ≡ some b) × (b.address ≤ address)
    unfolding allocate
    allocate_complete address commits h lo hi =
        elim (Option-cases (place w (r.base a.backing) a.cursor a.capacity l)) [
          | inl full ↦ absurd (
              omega (
                arith,
                place-none w (r.base a.backing) a.cursor a.capacity l v.inside v.below al
                    (address - r.base a.backing) full (omega arith)
                    (subst (λ (t : ℕ). IsAligned t l.align) (omega arith) h),
              ))
          | inr ((offset, end), at) ↦
              let f : Fits (r.base a.backing) a.cursor a.capacity l offset end =
                place-Fits w (r.base a.backing) a.cursor a.capacity l v.inside v.below al at in
              (
                record { address = r.base a.backing + offset; length = l.size },
                ground (arith, at, commits offset),
                Fits-least w (r.base a.backing) a.cursor a.capacity l offset end al f address h lo,
              )
        ]
