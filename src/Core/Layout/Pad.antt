-- ===== src/Core/Layout/Pad.antt =====
-- `pad_to_align` and `array`.
use mathlib.Core.Path.{subst₂}
use native.Mathlib.Nat.{add-mod_right}
use forge_alloc.Base.{
  ℕ, zero, suc, ◌+◌, ◌-◌, ◌*◌, ◌%◌, ◌^◌, ◌≤◌, ◌<◌, ◌≡◌, refl, ap, subst, sym, arith, some,
  Option-cases, inl, inr, ◌∙◌,
}
use forge_alloc.Word.Bits.{two-pow-suc, two-pow-pos}
use forge_alloc.Word.Defs.{isize_max, mask_down, wrapping_add, wrapping_sub}
use forge_alloc.Word.Wrap.{wrapping_add_lt, wrapping_sub_le}
use forge_alloc.Word.Align.{
  IsAligned, IsAlign-pos, Rounds, Rounds-least, mask_down-Rounds, two-pow-IsAligned,
}
use forge_alloc.Core.Layout.{NonZeroLayout, TypeLayout, for_type, pad_to_align, array_of, array}
use forge_alloc.Core.Layout.Valid.{IsValid, new-IsValid, for_type-IsValid}

-- `isize::MAX + 1` is half of the address space.
half_space : (w : ℕ) → 1 ≤ w → (2 ^ w ≡ 2 * 2 ^ (w - 1)) × (isize_max w + 1 ≡ 2 ^ (w - 1))
half_space zero h = elim h [ ]
half_space (suc v) h =
    rw (add_one_sub_one v) (omega (arith, two-pow-suc v), omega (arith, two-pow-pos v))
  where
    add_one_sub_one : (n : ℕ) → suc n - 1 ≡ n
    add_one_sub_one n = omega arith

pub Rounds-aligned :
    (raw align result : ℕ)
    → 1 ≤ align
    → Rounds raw align result
    → IsAligned raw align
    → result ≡ raw
Rounds-aligned raw align result pos r h =
    omega (arith, r.above, Rounds-least raw align result raw pos r h (omega arith))

module _ (w : ℕ) (l : NonZeroLayout) (v : IsValid w l) where
  room : l.size + l.align < 2 ^ w
  room = omega (
    arith,
    half_space w (omega (arith, v.power.fits)),
    v.bounded,
    IsAlign-pos v.power,
    two-pow-pos (w - 1),
  )

  no_wrap : wrapping_sub w (wrapping_add w l.size l.align) 1 ≡ l.size + (l.align - 1)
  no_wrap = rw (wrapping_add_lt w l.size l.align room) (
      wrapping_sub_le w (l.size + l.align) 1 (omega (arith, v.nonzero)) room
      ∙ omega (arith, IsAlign-pos v.power))

  -- The padded size of a valid layout is the multiple of the alignment at or above the size and less
  -- than one alignment away.
  pub pad_to_align-Rounds : Rounds l.size l.align (pad_to_align w l).size
  unfolding pad_to_align
  pad_to_align-Rounds =
      let r : Rounds l.size l.align (mask_down w (l.size + (l.align - 1)) l.align) =
        mask_down-Rounds w l.size l.align v.power (omega (arith, room)) in
      let big : 1 ≤ mask_down w (l.size + (l.align - 1)) l.align =
        omega (arith, v.nonzero, r.above) in
      let same : (pad_to_align w l).size ≡ mask_down w (l.size + (l.align - 1)) l.align =
        rw no_wrap (ground (arith, big)) in
      subst (Rounds l.size l.align) (sym same) r

  pub align-pad_to_align : (pad_to_align w l).align ≡ l.align
  unfolding pad_to_align
  align-pad_to_align = refl

  half_IsAligned : IsAligned (2 ^ (w - 1) - l.align) l.align
  half_IsAligned =
      let half : IsAligned (2 ^ (w - 1)) l.align =
        rw v.power.power
          (two-pow-IsAligned v.power.exponent (w - 1) (omega (arith, v.power.fits))) in
      let top : 2 ^ (w - 1) - l.align + l.align ≡ 2 ^ (w - 1) =
        omega (arith, half_space w (omega (arith, v.power.fits)), v.bounded, v.nonzero) in
      sym (add-mod_right (2 ^ (w - 1) - l.align) l.align) ∙ ap (λ (t : ℕ). t % l.align) top ∙ half

  -- Padding keeps the layout valid.
  pub pad_to_align-IsValid : IsValid w (pad_to_align w l)
  unfolding pad_to_align
  pad_to_align-IsValid =
      let r : Rounds l.size l.align (pad_to_align w l).size = pad_to_align-Rounds in
      let least : (pad_to_align w l).size ≤ 2 ^ (w - 1) - l.align =
        Rounds-least l.size l.align (pad_to_align w l).size (2 ^ (w - 1) - l.align)
          (IsAlign-pos v.power) r half_IsAligned
          (omega
            (arith, half_space w (omega (arith, v.power.fits)), v.bounded, IsAlign-pos v.power)) in
      let split : isize_max w + 1 ≡ 2 ^ (w - 1) = (half_space w (omega (arith, v.power.fits))).1 in
      let reach : 1 ≤ (pad_to_align w l).size = omega (arith, r.above, v.nonzero) in
      record {
        nonzero = reach;
        power = v.power;
        bounded = omega (arith, least, split, IsAlign-pos v.power, reach);
      }

array_of-IsValid :
    (w size align n : ℕ) {l : NonZeroLayout}
    → align < 2 ^ w
    → array_of w size align n ≡ some l
    → IsValid w l × (l ≡ record { size = size * n; align = align })
unfolding array_of
array_of-IsValid w size align n h e =
    new-IsValid w (size * n) align h (ground (arith, e)) (ground (arith, e))

-- A layout that `array` returns for `n` values of a type, whose size is a multiple of its alignment of
-- `w` bits, is valid, exactly `n` sizes long, and at the alignment of the type.
pub array_lem :
    (w : ℕ) (t : TypeLayout) (n : ℕ) {l : NonZeroLayout}
    → t.align_of < 2 ^ w
    → IsAligned t.size_of t.align_of
    → array w t n ≡ some l
    → IsValid w l × (l.size ≡ t.size_of * n) × (l.align ≡ t.align_of)
unfolding array
array_lem w t n {l} ha hs e = elim (Option-cases (for_type w t)) [
  | inl no_elem ↦ absurd (ground (arith, e, no_elem))
  | inr (elem, made) ↦
      let good : IsValid w elem × (elem ≡ record { size = t.size_of; align = t.align_of }) =
        for_type-IsValid w t ha made in
      let own : (elem.size ≡ t.size_of) × (elem.align ≡ t.align_of) =
        (ap (λ (x : NonZeroLayout). x.size) good.1, ap (λ (x : NonZeroLayout). x.align) good.1) in
      let same : (pad_to_align w elem).size ≡ elem.size =
        Rounds-aligned elem.size elem.align (pad_to_align w elem).size (IsAlign-pos good.0.power)
          (pad_to_align-Rounds w elem good.0) (rw (own.0, own.1) hs) in
      let rest : array_of w (pad_to_align w elem).size (pad_to_align w elem).align n ≡ some l =
        ground (arith, e, made) in
      let built : IsValid w l × (l ≡ record { size = t.size_of * n; align = t.align_of }) =
        array_of-IsValid w t.size_of t.align_of n ha (
          subst₂ (λ (x y : ℕ). array_of w x y n ≡ some l) (same ∙ own.0)
            (align-pad_to_align w elem good.0 ∙ own.1) rest) in
      (
        built.0,
        ap (λ (x : NonZeroLayout). x.size) built.1,
        ap (λ (x : NonZeroLayout). x.align) built.1,
      )
]
