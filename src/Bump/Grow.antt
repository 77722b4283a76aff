-- ===== src/Bump/Grow.antt =====
-- `grow`: in place at the cursor, else a fresh block with a copy of the old bytes.
use mathlib.Core.Path.{subst₃}
use forge_alloc.Base.{
  ℕ, ◌+◌, ◌-◌, ◌≤◌, ◌<◌, ◌≡◌, refl, sym, subst, arith, ◌⊎◌, inl, inr, true, some, Option-cases,
  Bool-cases, leb,
}
use forge_alloc.Word.Defs.{checked_add, wrapping_sub}
use forge_alloc.Word.Wrap.{wrapping_sub_le}
use forge_alloc.Word.Align.{IsAlign, IsAligned}
use forge_alloc.Core.Layout.{NonZeroLayout}
use forge_alloc.Core.Memory.{Memory, copy, copy_copied, copy_kept}
use forge_alloc.Core.Range.{FixedRange, IsFixed, Block}
use forge_alloc.Bump.{BumpArena, allocate, is_top, relocate, grow}
use forge_alloc.Bump.Allocate.{IsValid, Issued, allocate-Issued}

module _ (w : ℕ) {B : Type 0} (r : FixedRange B) where
  is_top_sound :
      (a : BumpArena B) (offset size : ℕ)
      → is_top w r a offset size ≡ true
      → offset + size ≡ a.cursor
  unfolding is_top
  is_top_sound a offset size e = ground arith

  relocate-some :
      (a : BumpArena B) (m : Memory) (ptr : ℕ) (old l : NonZeroLayout) {a' : BumpArena B}
      {m' : Memory} {b : Block}
      → relocate w r a m ptr old l ≡ (a', m', some b)
      → (allocate w r a l ≡ (a', some b)) × (m' ≡ copy ptr b.address old.size m)
  unfolding relocate
  relocate-some a m ptr old l e = elim (Option-cases (allocate w r a l).1) [
    | inl full ↦ absurd (ground (arith, e, full))
    | inr (b, got) ↦ (ground (arith, e, got), ground (arith, e, got))
  ]

  -- The two ways in which `grow` succeeds.
  grow-some :
      (a : BumpArena B) (m : Memory) (ptr : ℕ) (old l : NonZeroLayout) {a' : BumpArena B}
      {m' : Memory} {b : Block}
      → grow w r a m ptr old l ≡ (a', m', some b)
      → let offset = wrapping_sub w ptr (r.base a.backing) in
        ((offset + old.size ≡ a.cursor)
          × (offset + l.size ≤ a.capacity)
          × (a' ≡ record a {
            backing = (r.commit a.backing offset l.size).0;
            cursor = offset + l.size;
          })
          × (m' ≡ m)
          × (b ≡ record { address = ptr; length = l.size }))
        ⊎ (relocate w r a m ptr old l ≡ (a', m', some b))
  unfolding grow
  grow-some a m ptr old l e =
      let offset : ℕ = wrapping_sub w ptr (r.base a.backing) in
      elim (Bool-cases (is_top w r a offset old.size)) [
        | inl top ↦ elim (Option-cases (checked_add w offset l.size)) [
          | inl over ↦ absurd (ground (arith, e, top, over))
          | inr (end, sum) ↦ elim (Bool-cases (leb end a.capacity)) [
            | inl fits ↦ elim (Option-cases (r.commit a.backing offset l.size).1) [
              | inl refused ↦ absurd (ground (arith, e, top, sum, fits, refused))
              | inr (_, ok) ↦
                  let total : end ≡ offset + l.size = ground (arith, sum) in
                  inl (
                    is_top_sound a offset old.size top,
                    ground (arith, total, fits),
                    ground (arith, e, top, sum, fits, ok, total),
                    ground (arith, e, top, sum, fits, ok),
                    ground (arith, e, top, sum, fits, ok),
                  )
            ]
            | inr past ↦ inr (ground (arith, e, top, sum, past))
          ]
        ]
        | inr below ↦ inr (ground (arith, e, below))
      ]

  -- What a successful `grow` of the block of `old.size` bytes at `ptr` returns and leaves.
  pub record Grown (a : BumpArena B) (m : Memory) (ptr : ℕ) (old l : NonZeroLayout)
      (a' : BumpArena B) (m' : Memory) (b : Block) : Type 0 where
    pub length : b.length ≡ l.size
    pub aligned : IsAligned b.address l.align
    pub place :
        ((b.address ≡ ptr) × (ptr + old.size ≡ r.base a.backing + a.cursor))
        ⊎ (r.base a.backing + a.cursor ≤ b.address)
    pub ends : b.address + b.length ≡ r.base a.backing + a'.cursor
    pub copied : (i : ℕ) → i < old.size → m' (b.address + i) ≡ m (ptr + i)
    pub kept : (x : ℕ) → x < r.base a.backing + a.cursor → m' x ≡ m x
    pub base : r.base a'.backing ≡ r.base a.backing
    pub valid : IsValid w r a'

  module _ (fixed : IsFixed r) (a : BumpArena B) (m : Memory) (ptr : ℕ) (old l : NonZeroLayout)
      (v : IsValid w r a) (al : IsAlign w l.align) (from : r.base a.backing ≤ ptr)
      (to : ptr + old.size ≤ r.base a.backing + a.cursor) (at : IsAligned ptr l.align) where
    back : wrapping_sub w ptr (r.base a.backing) ≡ ptr - r.base a.backing
    back = wrapping_sub_le w ptr (r.base a.backing) from (omega (arith, v.inside, v.below))

    relocate-Grown :
        {a' : BumpArena B} {m' : Memory} {b : Block}
        → relocate w r a m ptr old l ≡ (a', m', some b)
        → Grown a m ptr old l a' m' b
    relocate-Grown {a'} {m'} {b} e =
        let (got, em) = relocate-some a m ptr old l e in
        let i : Issued w r a l a' b = allocate-Issued w r fixed a l v al got in
        subst (λ x. Grown a m ptr old l a' x b) (sym em)
          (record {
            length = i.length;
            aligned = i.aligned;
            place = inr i.after;
            ends = sym i.cursor;
            copied = λ k h. copy_copied ptr b.address old.size m k h;
            kept = λ x h. copy_kept ptr b.address old.size m x (inl (omega (arith, i.after)));
            base = i.base;
            valid = i.valid;
          })

    -- A `grow` that succeeds, of an aligned block in a valid arena before its cursor, keeps the old bytes at the front of the new block and every byte before
    -- the old cursor; the new block has the new size, is aligned, ends at the new cursor, and either
    -- starts where the old block did, which was the most recent one, or lies behind the old cursor.
    pub grow-Grown :
        {a' : BumpArena B} {m' : Memory} {b : Block}
        → grow w r a m ptr old l ≡ (a', m', some b)
        → Grown a m ptr old l a' m' b
    grow-Grown {a'} {m'} {b} e = elim (grow-some a m ptr old l e) [
      | inr moved ↦ relocate-Grown moved
      | inl (top, fits, ea, em, eb) ↦
          let offset : ℕ = wrapping_sub w ptr (r.base a.backing) in
          let fb : r.base (r.commit a.backing offset l.size).0 ≡ r.base a.backing =
            fixed.base-commit a.backing offset l.size in
          let fs : r.size (r.commit a.backing offset l.size).0 ≡ r.size a.backing =
            fixed.size-commit a.backing offset l.size in
          subst₃ (λ x y z. Grown a m ptr old l x y z) (sym ea) (sym em) (sym eb)
            (record {
              length = refl;
              aligned = at;
              place = inl (refl, omega (arith, top, back, from));
              ends = omega (arith, fb, back, from);
              copied = λ k h. refl;
              kept = λ x h. refl;
              base = fb;
              valid = record {
                covers = omega (arith, fs, v.covers);
                inside = omega (arith, fb, v.inside);
                below = fits;
              };
            })
    ]

    -- In a valid arena the most recent block, aligned, grows in place where the capacity allows it and the backing commits.
    pub grow_in_place :
        ptr + old.size ≡ r.base a.backing + a.cursor
        → ptr + l.size ≤ r.base a.backing + a.capacity
        → (r.commit a.backing (ptr - r.base a.backing) l.size).1 ≡ some tt
        → ((grow w r a m ptr old l).2 ≡ some (record { address = ptr; length = l.size }))
          × ((grow w r a m ptr old l).1 ≡ m)
          × ((grow w r a m ptr old l).0.cursor ≡ ptr - r.base a.backing + l.size)
    unfolding grow
    grow_in_place top room ok =
        let offset : ℕ = wrapping_sub w ptr (r.base a.backing) in
        let o : offset ≡ ptr - r.base a.backing = back in
        let ok' : (r.commit a.backing offset l.size).1 ≡ some tt = rw back ok in
        let here : checked_add w offset old.size ≡ some a.cursor =
          ground (arith, o, top, v.inside, v.below) in
        let there : checked_add w offset l.size ≡ some (offset + l.size) =
          ground (arith, o, room, v.inside) in
        let fits : leb (offset + l.size) a.capacity ≡ true = ground (arith, o, room) in
        (
          ground (arith, ok', here, there, fits),
          ground (arith, ok', here, there, fits),
          ground (arith, ok', here, there, fits, o),
        )
