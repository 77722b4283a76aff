-- ===== src/Stack/Frames.antt =====
-- The frames of a stack allocator as the blocks that they stand for, and what the operations do.
use mathlib.Core.Path.{subst₂}
use forge_alloc.Base.{
  ℕ, ◌+◌, ◌-◌, ◌^◌, ◌≤◌, ◌<◌, ◌≡◌, ◌↔◌, refl, sym, subst, ap, arith, inl, inr, none, some, List, [],
  ◌∷◌, ltb, Bool-cases, Option-cases,
}
use forge_alloc.Word.Defs.{wrapping_sub}
use forge_alloc.Word.Wrap.{wrapping_sub_le, wrapping_sub_lt}
use forge_alloc.Word.Align.{IsAlign, IsAligned}
use forge_alloc.Core.Layout.{NonZeroLayout}
use forge_alloc.Core.Range.{FixedRange, IsFixed, Block}
use forge_alloc.Cursor.{place, Fits, place-Fits}
use forge_alloc.Stack.{StackAlloc, pop, deallocate, allocate}

-- Each frame starts where the one below ends or later, holds at least one byte, and the last one
-- started at zero.
abbrev pub IsStacked : ℕ → List (ℕ × ℕ) → Type 0
IsStacked cursor [] = cursor ≡ 0
IsStacked cursor ((offset, prev) ∷ rest) = (prev ≤ offset) × (offset < cursor) × IsStacked prev rest

-- The blocks that the frames stand for: each ends at the cursor of its time.
abbrev pub blocks : ℕ → ℕ → List (ℕ × ℕ) → List Block
blocks base cursor [] = []
blocks base cursor ((offset, prev) ∷ rest) =
    record { address = base + offset; length = cursor - offset } ∷ blocks base prev rest

-- The difference of two addresses of `w` bits is the offset of a block exactly at the address of the
-- block.
pub offset_iff :
    (w base ptr offset : ℕ)
    → ptr < 2 ^ w
    → base + offset < 2 ^ w
    → (offset ≡ wrapping_sub w ptr base) ↔ (base + offset ≡ ptr)
offset_iff w base ptr offset hp ho = elim (Bool-cases (ltb ptr base)) [
  | inl below ↦
      let lt : ptr < base = ground (arith, below) in
      let wrapped : wrapping_sub w ptr base ≡ ptr + 2 ^ w - base =
        wrapping_sub_lt w ptr base lt (omega arith) in
      (λ e. absurd (omega (arith, e, wrapped)), λ e. absurd (omega arith))
  | inr from ↦
      let le : base ≤ ptr = ground (arith, from) in
      let plain : wrapping_sub w ptr base ≡ ptr - base = wrapping_sub_le w ptr base le hp in
      (λ e. omega (arith, e, plain), λ e. omega (arith, e, plain))
]

module _ (w : ℕ) {B : Type 0} (r : FixedRange B) where
  pub record IsValid (s : StackAlloc B) : Type 0 where
    pub covers : s.capacity ≡ r.size s.backing
    pub inside : r.base s.backing + s.capacity < 2 ^ w
    pub below : s.cursor ≤ s.capacity
    pub stacked : IsStacked s.cursor s.frames

  -- What a successful allocation of `l` returns and leaves.
  pub record Pushed (s : StackAlloc B) (l : NonZeroLayout) (s' : StackAlloc B) (b : Block)
      : Type 0 where
    pub aligned : IsAligned b.address l.align
    pub length : b.length ≡ l.size
    pub after : r.base s.backing + s.cursor ≤ b.address
    pub ends : r.base s'.backing + s'.cursor ≡ b.address + b.length
    pub base : r.base s'.backing ≡ r.base s.backing
    pub frames : s'.frames ≡ (b.address - r.base s.backing, s.cursor) ∷ s.frames
    pub valid : IsValid s'

  allocate-some :
      (s : StackAlloc B) (l : NonZeroLayout) {s' : StackAlloc B} {b : Block}
      → allocate w r s l ≡ (s', some b)
      → (offset : ℕ) × (end : ℕ) × (place w (r.base s.backing) s.cursor s.capacity l
          ≡ some (offset, end))
        × (s' ≡ record s {
          backing = (r.commit s.backing offset l.size).0;
          cursor = end;
          frames = (offset, s.cursor) ∷ s.frames;
        })
        × (b ≡ record { address = r.base s.backing + offset; length = l.size })
  unfolding allocate
  allocate-some s l e = elim (Option-cases (place w (r.base s.backing) s.cursor s.capacity l)) [
    | inl full ↦ absurd (ground (arith, e, full))
    | inr ((offset, end), at) ↦ elim (Option-cases (r.commit s.backing offset l.size).1) [
      | inl refused ↦ absurd (ground (arith, e, at, refused))
      | inr (_, ok) ↦ (offset, end, at, ground (arith, e, at, ok), ground (arith, e, at, ok))
    ]
  ]

  module _ (fixed : IsFixed r) (s : StackAlloc B) (v : IsValid s) where
    -- An allocation that succeeds, of a valid layout from a valid stack, returns an aligned block of the
    -- asked size behind the old cursor that ends at the new one, and leaves a valid stack with one more
    -- frame, which keeps the old cursor.
    pub allocate-Pushed :
        (l : NonZeroLayout) {s' : StackAlloc B} {b : Block}
        → IsAlign w l.align
        → 1 ≤ l.size
        → allocate w r s l ≡ (s', some b)
        → Pushed s l s' b
    allocate-Pushed l {s'} {b} al pos e =
        let (offset, end, at, es, eb) = allocate-some s l e in
        let f : Fits (r.base s.backing) s.cursor s.capacity l offset end =
          place-Fits w (r.base s.backing) s.cursor s.capacity l v.inside v.below al at in
        let fb : r.base (r.commit s.backing offset l.size).0 ≡ r.base s.backing =
          fixed.base-commit s.backing offset l.size in
        let fs : r.size (r.commit s.backing offset l.size).0 ≡ r.size s.backing =
          fixed.size-commit s.backing offset l.size in
        subst₂ (λ x y. Pushed s l x y) (sym es) (sym eb)
          (record {
            aligned = f.aligned;
            length = refl;
            after = omega (arith, f.after);
            ends = omega (arith, f.ends, fb);
            base = fb;
            frames = ap (λ (o : ℕ). (o, s.cursor) ∷ s.frames) (omega arith);
            valid = record {
              covers = omega (arith, fs, v.covers);
              inside = omega (arith, fb, v.inside);
              below = f.within;
              stacked = (f.after, omega (arith, f.ends, pos), v.stacked);
            };
          })

    -- An allocation that fails leaves the cursor and the frames, and the stack valid.
    pub allocate_refused :
        (l : NonZeroLayout) {s' : StackAlloc B}
        → allocate w r s l ≡ (s', none)
        → IsValid s'
          × (s'.cursor ≡ s.cursor)
          × (s'.frames ≡ s.frames)
          × (r.base s'.backing ≡ r.base s.backing)
    unfolding allocate
    allocate_refused l {s'} e =
        elim (Option-cases (place w (r.base s.backing) s.cursor s.capacity l)) [
          | inl full ↦ subst Kept (ground (arith, e, full)) (v, refl, refl, refl)
          | inr ((offset, end), at) ↦ elim (Option-cases (r.commit s.backing offset l.size).1) [
            | inl refused ↦
                let fb : r.base (r.commit s.backing offset l.size).0 ≡ r.base s.backing =
                  fixed.base-commit s.backing offset l.size in
                let fs : r.size (r.commit s.backing offset l.size).0 ≡ r.size s.backing =
                  fixed.size-commit s.backing offset l.size in
                let same : record s { backing = (r.commit s.backing offset l.size).0 } ≡ s' =
                  ground (arith, e, at, refused) in
                subst Kept same (
                  record {
                    covers = omega (arith, fs, v.covers);
                    inside = omega (arith, fb, v.inside);
                    below = v.below;
                    stacked = v.stacked;
                  },
                  refl,
                  refl,
                  fb,
                )
            | inr (_, ok) ↦ absurd (ground (arith, e, at, ok))
          ]
        ]
      where
        Kept : StackAlloc B → Type 0
        Kept x =
            IsValid x
            × (x.cursor ≡ s.cursor)
            × (x.frames ≡ s.frames)
            × (r.base x.backing ≡ r.base s.backing)

    -- The free that follows an allocation of a valid layout from a valid stack gives back its bytes and
    -- the padding in front of them: cursor and frames are as they were.
    pub deallocate-allocate :
        (l l' : NonZeroLayout) {s' : StackAlloc B} {b : Block}
        → IsAlign w l.align
        → 1 ≤ l.size
        → allocate w r s l ≡ (s', some b)
        → deallocate w r s' b.address l' ≡ record s' { cursor = s.cursor; frames = s.frames }
    unfolding deallocate pop
    deallocate-allocate l l' {s'} {b} al pos e =
        let p : Pushed s l s' b = allocate-Pushed l al pos e in
        let at : b.address - r.base s.backing ≡ wrapping_sub w b.address (r.base s'.backing) =
          (offset_iff w (r.base s'.backing) b.address (b.address - r.base s.backing)
              (omega (arith, p.ends, p.length, pos, p.valid.inside, p.valid.below))
              (omega
                (arith, p.base, p.after, p.ends, p.length, pos, p.valid.inside, p.valid.below))).1
            (omega (arith, p.base, p.after)) in
        rw p.frames (ground (arith, at))
