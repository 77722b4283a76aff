-- ===== src/Cursor.antt =====
-- The cursor arithmetic of `BumpArena::allocate`, which `StackAlloc::allocate` repeats: align
-- the absolute address, go back to an offset, add the size, compare with the capacity.
use forge_alloc.Base.{
  ℕ, ◌+◌, ◌-◌, ◌^◌, ◌≤◌, ◌<◌, ◌≡◌, subst, arith, Option, none, some, leb, guard, ◌>>=◌, ◌>>◌,
  Option-cases, inl, inr,
}
use forge_alloc.Word.Defs.{checked_add, wrapping_sub}
use forge_alloc.Word.Align.{
  align_up, IsAlign, IsAligned, IsAlign-pos, Rounds, Rounds-least, align_up-Rounds, align_up-none,
  align_up-lt,
}
use forge_alloc.Word.Wrap.{wrapping_sub_le}
use forge_alloc.Core.Layout.{NonZeroLayout}

-- The offset of the block and the offset of its end.
unfoldable pub place : ℕ → ℕ → ℕ → ℕ → NonZeroLayout → Option (ℕ × ℕ)
place w base cursor capacity l = do
  raw ← checked_add w base cursor
  aligned ← align_up w raw l.align
  let offset = wrapping_sub w aligned base
  end ← checked_add w offset l.size
  guard (leb end capacity)
  some (offset, end)

-- Where a block goes: the first aligned address from the cursor on, inside the region.
pub record Fits (base cursor capacity : ℕ) (l : NonZeroLayout) (offset end : ℕ) : Type 0 where
  pub after : cursor ≤ offset
  pub near : offset < cursor + l.align
  pub aligned : IsAligned (base + offset) l.align
  pub ends : end ≡ offset + l.size
  pub within : end ≤ capacity

-- No aligned address behind the cursor comes before the block.
pub Fits-least :
    (w base cursor capacity : ℕ) (l : NonZeroLayout) (offset end : ℕ)
    → IsAlign w l.align
    → Fits base cursor capacity l offset end
    → (address : ℕ) → IsAligned address l.align
    → base + cursor ≤ address
    → base + offset ≤ address
Fits-least w base cursor capacity l offset end a f address h lo =
    Rounds-least (base + cursor) l.align (base + offset) address (IsAlign-pos a)
      (record { above = omega (arith, f.after); near = omega (arith, f.near); aligned = f.aligned })
      h lo

module _ (w base cursor capacity : ℕ) (l : NonZeroLayout) (inside : base + capacity < 2 ^ w)
    (below : cursor ≤ capacity) (a : IsAlign w l.align) where
  pub place-Fits :
      {offset end : ℕ}
      → place w base cursor capacity l ≡ some (offset, end)
      → Fits base cursor capacity l offset end
  unfolding place
  place-Fits {offset} {end} e = elim (Option-cases (align_up w (base + cursor) l.align)) [
    | inl full ↦ absurd (ground (arith, e, full))
    | inr (x, at) ↦
        let r : Rounds (base + cursor) l.align x = align_up-Rounds w (base + cursor) l.align a at in
        let top : x < 2 ^ w = align_up-lt w (base + cursor) l.align a at in
        let back : wrapping_sub w x base ≡ x - base =
          wrapping_sub_le w x base (omega (arith, r.above)) top in
        let o : offset ≡ x - base = ground (arith, e, at, back) in
        record {
          after = omega (arith, o, r.above);
          near = omega (arith, o, r.near, r.above);
          aligned = subst (λ (t : ℕ). IsAligned t l.align) (omega (arith, o, r.above)) r.aligned;
          ends = ground (arith, e, at, back);
          within = ground (arith, e, at, back);
        }
  ]

  -- A refusal means that no aligned block of this size fits behind the cursor.
  pub place-none :
      (offset : ℕ)
      → place w base cursor capacity l ≡ none
      → cursor ≤ offset
      → IsAligned (base + offset) l.align
      → capacity < offset + l.size
  unfolding place
  place-none offset e h ha = elim (Option-cases (align_up w (base + cursor) l.align)) [
    | inl full ↦ omega (arith, align_up-none w (base + cursor) l.align a full ha (omega arith))
    | inr (x, at) ↦
        let r : Rounds (base + cursor) l.align x = align_up-Rounds w (base + cursor) l.align a at in
        let top : x < 2 ^ w = align_up-lt w (base + cursor) l.align a at in
        let least : x ≤ base + offset =
          Rounds-least (base + cursor) l.align x (base + offset) (IsAlign-pos a) r ha
            (omega arith) in
        let back : wrapping_sub w x base ≡ x - base =
          wrapping_sub_le w x base (omega (arith, r.above)) top in
        ground (arith, e, at, back, r.above)
  ]
