-- ===== src/Word/Power.antt =====
-- Powers of two: what `is_power_of_two` and `trailing_zeros` find.
use forge_alloc.Base.{
  ℕ, zero, suc, ◌/◌, ◌%◌, ◌^◌, ◌<◌, ◌≡◌, ◌+◌, ◌-◌, ◌≤◌, ◌∙◌, true, refl, sym, subst, ltb, leb, ap,
  arith, ==_iff, ◌==◌, inl, inr, Bool-cases,
}
use forge_alloc.Word.Defs.{
  count_ones, trailing_zeros, is_power_of_two, double_up, next_power_of_two,
}
use forge_alloc.Word.Bits.{two-pow-suc, two-pow-pos, two-pow_mono}

count_ones-zero : (w a : ℕ) → a < 2 ^ w → count_ones w a ≡ 0 → a ≡ 0
unfolding count_ones
count_ones-zero zero a h e = omega arith
count_ones-zero (suc w) a h e =
    omega
      (arith, two-pow-suc w, count_ones-zero w (a / 2) (omega (arith, two-pow-suc w)) (omega arith))

-- A word with one bit set is `2 ^ k`, and `k` is its number of trailing zeros.
pub count_ones-one :
    (w a : ℕ)
    → a < 2 ^ w
    → count_ones w a ≡ 1
    → (trailing_zeros w a < w) × (a ≡ 2 ^ trailing_zeros w a)
unfolding count_ones trailing_zeros
count_ones-one zero a h e = absurd (omega arith)
count_ones-one (suc w) a h e = elim (Bool-cases (a % 2 == 0)) [
  | inl even ↦
      let ih : (trailing_zeros w (a / 2) < w) × (a / 2 ≡ 2 ^ trailing_zeros w (a / 2)) =
        count_ones-one w (a / 2) (omega (arith, two-pow-suc w)) (ground arith) in
      let is_even : a % 2 ≡ 0 = (==_iff _ 0).0 even in
      rw even (omega arith, omega (arith, two-pow-suc (trailing_zeros w (a / 2))))
  | inr odd ↦
      let is_odd : a % 2 ≡ 1 = ground arith in
      rw odd (
        omega arith,
        omega (arith, count_ones-zero w (a / 2) (omega (arith, two-pow-suc w)) (omega arith)),
      )
]

-- What `is_power_of_two` accepts is a power of two below `2 ^ w`.
pub is_power_of_two_sound :
    (w a : ℕ)
    → a < 2 ^ w
    → is_power_of_two w a ≡ true
    → (trailing_zeros w a < w) × (a ≡ 2 ^ trailing_zeros w a)
unfolding is_power_of_two
is_power_of_two_sound w a h e = count_ones-one w a h ((==_iff _ 1).0 e)

count_ones_of_zero : (w : ℕ) → count_ones w 0 ≡ 0
unfolding count_ones
count_ones_of_zero zero = refl
count_ones_of_zero (suc w) = omega (arith, count_ones_of_zero w)

-- A power of two below `2 ^ w` has one bit set.
pub count_ones_of_power : (w k : ℕ) → k < w → count_ones w (2 ^ k) ≡ 1
unfolding count_ones
count_ones_of_power zero k h = elim h [ ]
count_ones_of_power (suc w) zero h = omega (arith, count_ones_of_zero w)
count_ones_of_power (suc w) (suc k) h =
    omega (
      arith,
      two-pow-suc k,
      count_ones_of_power w k (omega arith),
      ap (count_ones w) (half_power k),
    )
  where
    half_power : (j : ℕ) → 2 ^ suc j / 2 ≡ 2 ^ j
    half_power j = omega (arith, two-pow-suc j)

pub is_power_of_two_complete : (w k : ℕ) → k < w → is_power_of_two w (2 ^ k) ≡ true
unfolding is_power_of_two
is_power_of_two_complete w k h = (==_iff _ 1).1 (count_ones_of_power w k h)

pub two-pow-lt : (k m : ℕ) → k < m → 2 ^ k < 2 ^ m
two-pow-lt k m h = omega (arith, two-pow-suc k, two-pow-pos k, two-pow_mono (suc k) m (omega arith))

pub two-pow_inj : (k m : ℕ) → 2 ^ k ≡ 2 ^ m → k ≡ m
two-pow_inj k m e = elim (Bool-cases (ltb k m)) [
  | inl less ↦ absurd (omega (arith, e, two-pow-lt k m (ground (arith, less))))
  | inr not_less ↦ elim (Bool-cases (ltb m k)) [
    | inl more ↦ absurd (omega (arith, e, two-pow-lt m k (ground (arith, more))))
    | inr not_more ↦ ground (arith, not_less, not_more)
  ]
]

pub trailing_zeros-power : (w k : ℕ) → k < w → trailing_zeros w (2 ^ k) ≡ k
trailing_zeros-power w k h =
    let (_, e) =
      is_power_of_two_sound w (2 ^ k) (two-pow-lt k w h) (is_power_of_two_complete w k h) in
    two-pow_inj (trailing_zeros w (2 ^ k)) k (sym e)

-- The least power of two that is not below `n`, by its exponent.
pub record Ceiling (n k : ℕ) : Type 0 where
  pub above : n ≤ 2 ^ k
  pub least : (j : ℕ) → n ≤ 2 ^ j → k ≤ j

double_up-Ceiling :
    (fuel j n : ℕ)
    → ((i : ℕ) → n ≤ 2 ^ i → j ≤ i)
    → n ≤ 2 ^ (j + fuel)
    → (k : ℕ) × (double_up fuel (2 ^ j) n ≡ 2 ^ k) × Ceiling n k
unfolding double_up
double_up-Ceiling zero j n least reach =
    (j, refl, record { above = subst (λ (t : ℕ). n ≤ 2 ^ t) (omega arith) reach; least = least })
double_up-Ceiling (suc fuel) j n least reach = elim (Bool-cases (leb n (2 ^ j))) [
  | inl there ↦ (j, ground (arith, there), record { above = ground (arith, there); least = least })
  | inr short ↦
      let below : 2 ^ j < n = ground (arith, short) in
      let (k, e, c) =
        double_up-Ceiling fuel (suc j) n
          (λ i h. elim (Bool-cases (ltb i (suc j))) [
            | inl low ↦ absurd (omega (arith, h, below, two-pow_mono i j (ground (arith, low))))
            | inr high ↦ ground (arith, high)
          ])
          (subst (λ (t : ℕ). n ≤ 2 ^ t) (omega arith) reach) in
      (k, ground (arith, short) ∙ ap (λ (t : ℕ). double_up fuel t n) (sym (two-pow-suc j)) ∙ e, c)
]

pub next_power_of_two-Ceiling :
    (w n : ℕ)
    → 1 ≤ w
    → n ≤ 2 ^ (w - 1)
    → (k : ℕ) × (next_power_of_two w n ≡ 2 ^ k) × (k < w) × Ceiling n k
unfolding next_power_of_two
next_power_of_two-Ceiling w n pos le =
    let all : n ≤ 2 ^ w = omega (arith, le, two-pow_mono (w - 1) w (omega arith)) in
    let (k, e, c) =
      double_up-Ceiling w 0 n (λ i h. omega arith) (subst (λ (t : ℕ). n ≤ 2 ^ t) (shift w) all) in
    (k, e, omega (arith, pos, c.least (w - 1) le), c)
  where
    shift : (a : ℕ) → a ≡ 0 + a
    shift a = omega arith
