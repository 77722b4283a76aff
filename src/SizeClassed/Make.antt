-- ===== src/SizeClassed/Make.antt =====
-- What the checks of the class sizes accept.
use forge_alloc.Base.{
  ℕ, zero, suc, ◌+◌, ◌^◌, ◌≤◌, ◌<◌, ◌≡◌, subst, inl, inr, arith, true, Bool-cases, ltb, ◌==◌,
}
use forge_alloc.Word.Defs.{is_power_of_two, trailing_zeros}
use forge_alloc.Word.Bits.{two-pow_mono}
use forge_alloc.Word.Power.{is_power_of_two_sound}
use forge_alloc.SizeClassed.{valid_sizes}
use forge_alloc.SizeClassed.Lookup.Least.{Rising}

-- The sizes of the first `classes` classes are powers of two from 4 on, each above the one before.
pub record Accepted (w : ℕ) (class_sizes : ℕ → ℕ) (classes : ℕ) : Type 0 where
  pub wide : (i : ℕ) → i < classes → 4 ≤ class_sizes i
  pub power : (i : ℕ) → i < classes → class_sizes i ≡ 2 ^ trailing_zeros w (class_sizes i)
  pub low : (i : ℕ) → i < classes → trailing_zeros w (class_sizes i) < w
  pub rise : (i j : ℕ) → i < j → j < classes → class_sizes i < class_sizes j

module _ (w : ℕ) (class_sizes : ℕ → ℕ) where
  module _ (n i last : ℕ) (h : valid_sizes w class_sizes (suc n) i last ≡ true) where
    valid-first :
        (4 ≤ class_sizes i)
        × (is_power_of_two w (class_sizes i) ≡ true)
        × (last < class_sizes i)
        × (valid_sizes w class_sizes n (suc i) (class_sizes i) ≡ true)
    unfolding valid_sizes
    valid-first = ground (arith, h)

  valid-each :
      (n i last j : ℕ)
      → valid_sizes w class_sizes n i last ≡ true
      → i ≤ j
      → j < i + n
      → (4 ≤ class_sizes j) × (is_power_of_two w (class_sizes j) ≡ true) × (last < class_sizes j)
  valid-each zero i last j h ge lt = absurd (omega (arith, ge, lt))
  valid-each (suc n) i last j h ge lt =
      let (wide, power, above, rest) = valid-first n i last h in
      elim (Bool-cases (j == i)) [
        | inl here ↦
            subst
              (λ (x : ℕ).
                (4 ≤ class_sizes x)
                × (is_power_of_two w (class_sizes x) ≡ true)
                × (last < class_sizes x))
              (ground (arith, here)) (wide, power, above)
        | inr later ↦
            let (wide', power', above') =
              valid-each n (suc i) (class_sizes i) j rest (ground (arith, later, ge))
                (omega (arith, lt)) in
            (wide', power', omega (arith, above, above'))
      ]

  valid-rise :
      (n i last j k : ℕ)
      → valid_sizes w class_sizes n i last ≡ true
      → i ≤ j
      → j < k
      → k < i + n
      → class_sizes j < class_sizes k
  valid-rise zero i last j k h ge lt top = absurd (omega (arith, ge, lt, top))
  valid-rise (suc n) i last j k h ge lt top =
      let (wide, power, above, rest) = valid-first n i last h in
      elim (Bool-cases (j == i)) [
        | inl here ↦
            let same : i ≡ j = ground (arith, here) in
            subst (λ (x : ℕ). class_sizes x < class_sizes k) same
              (valid-each n (suc i) (class_sizes i) k rest (omega (arith, same, lt))
                (omega (arith, top))).2
        | inr later ↦
            valid-rise n (suc i) (class_sizes i) j k rest (ground (arith, later, ge)) lt
              (omega (arith, top))
      ]

  pub valid_sizes-Accepted :
      (classes : ℕ)
      → ((i : ℕ) → i < classes → class_sizes i < 2 ^ w)
      → valid_sizes w class_sizes classes 0 0 ≡ true
      → Accepted w class_sizes classes
  valid_sizes-Accepted classes words h = record {
    wide = λ i lt. (valid-each classes 0 0 i h (omega arith) (omega (arith, lt))).0;
    power = λ i lt.
        (is_power_of_two_sound w (class_sizes i) (words i lt)
          (valid-each classes 0 0 i h (omega arith) (omega (arith, lt))).1).1;
    low = λ i lt.
        (is_power_of_two_sound w (class_sizes i) (words i lt)
          (valid-each classes 0 0 i h (omega arith) (omega (arith, lt))).1).0;
    rise = λ i j lt top. valid-rise classes 0 0 i j h (omega arith) lt (omega (arith, top));
  }

  pub Accepted-Rising :
      (classes : ℕ) → classes ≤ 255 → Accepted w class_sizes classes → Rising w class_sizes classes
  Accepted-Rising classes few a = record {
    few = few;
    rise = λ i j lt top.
        elim (Bool-cases
          (ltb (trailing_zeros w (class_sizes i)) (trailing_zeros w (class_sizes j)))) [
            | inl less ↦ ground (arith, less)
            | inr not_less ↦ absurd (
                omega (
                  arith,
                  two-pow_mono (trailing_zeros w (class_sizes j)) (trailing_zeros w (class_sizes i))
                      (ground (arith, not_less)),
                  a.power i (omega (arith, lt, top)),
                  a.power j top,
                  a.rise i j lt top,
                ))
          ];
  }
