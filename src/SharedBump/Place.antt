-- ===== src/SharedBump/Place.antt =====
-- The arithmetic of the loop is that of the unshared arena.
use forge_alloc.Base.{ℕ, ◌+◌, ◌-◌, ◌≡◌, arith, inl, inr, Option-cases}
use forge_alloc.Word.Defs.{wrapping_sub}
use forge_alloc.Word.Wrap.{wrapping_sub_le}
use forge_alloc.Word.Align.{IsAlign, Rounds, align_up, align_up-Rounds, align_up-lt}
use forge_alloc.Core.Layout.{NonZeroLayout}
use forge_alloc.Cursor.{place}
use forge_alloc.SharedBump.{offsets}

pub offsets-place :
    (w base cur capacity : ℕ) (l : NonZeroLayout)
    → IsAlign w l.align
    → offsets w base cur capacity l ≡ place w base cur capacity l
unfolding offsets place
offsets-place w base cur capacity l a = elim (Option-cases (align_up w (base + cur) l.align)) [
  | inl full ↦ ground (arith, full)
  | inr (x, at) ↦
      let r : Rounds (base + cur) l.align x = align_up-Rounds w (base + cur) l.align a at in
      let back : wrapping_sub w x base ≡ x - base =
        wrapping_sub_le w x base (omega (arith, r.above))
          (align_up-lt w (base + cur) l.align a at) in
      ground (arith, at, back)
]
