-- ===== src/Word/Bits.antt =====
-- `bit_and` at variables: one binary digit at a time, and with a mask of low or of high ones.
use Prim.Native.Nat.{digits, bit_and-bitwise}
use native.Mathlib.Nat.{pow-suc, one-le-pow, div-add-mod', mod-lt}
use forge_alloc.Base.{
  ℕ, zero, suc, ◌+◌, ◌-◌, ◌*◌, ◌/◌, ◌%◌, ◌^◌, ◌≤◌, ◌<◌, ◌≡◌, refl, ap, sym, ◌∙◌, arith, bit_and,
  min,
}

pub two-pow-suc : (k : ℕ) → 2 ^ suc k ≡ 2 * 2 ^ k
two-pow-suc k = omega (arith, pow-suc 2 k)

pub two-pow-pos : (k : ℕ) → 1 ≤ 2 ^ k
two-pow-pos k = omega (arith, one-le-pow k 2)

pub two-pow_mono : (k w : ℕ) → k ≤ w → 2 ^ k ≤ 2 ^ w
two-pow_mono zero w h = omega (arith, two-pow-pos w)
two-pow_mono (suc k) zero h = elim h [ ]
two-pow_mono (suc k) (suc w) h =
    omega (arith, two-pow-suc k, two-pow-suc w, two-pow_mono k w (omega arith))

pub times-two-pow-suc : (q k : ℕ) → q * 2 ^ suc k ≡ 2 * (q * 2 ^ k)
times-two-pow-suc q k = omega (arith, ap (λ (t : ℕ). q * t) (two-pow-suc k))

-- Enough fuel is enough.
and_fuel : (m n a b : ℕ) → a ≤ m → a ≤ n → digits (λ y. 0) min m a b ≡ digits (λ y. 0) min n a b
and_fuel zero zero a b p q = refl
and_fuel zero (suc n) zero b p q = refl
and_fuel zero n (suc a) b p q = elim p [ ]
and_fuel (suc m) zero zero b p q = refl
and_fuel (suc m) (suc n) zero b p q = refl
and_fuel (suc m) zero (suc a) b p q = elim q [ ]
and_fuel (suc m) (suc n) (suc a) b p q =
    ap (λ (d : ℕ). d * 2 + min (suc a % 2) (b % 2))
      (and_fuel m n (suc a / 2) (b / 2) (omega arith) (omega arith))

-- The lowest digit of `a & b` is the product of the lowest digits.
pub bit_and_digit : (a b : ℕ) → bit_and a b ≡ 2 * bit_and (a / 2) (b / 2) + min (a % 2) (b % 2)
bit_and_digit zero b = omega (arith, bit_and-bitwise 0 b, bit_and-bitwise 0 (b / 2))
bit_and_digit (suc a) b = omega (
  arith,
  bit_and-bitwise (suc a) b,
  bit_and-bitwise (suc a / 2) (b / 2),
  and_fuel a (suc a / 2) (suc a / 2) (b / 2) (omega arith) (omega arith),
)

-- The same, with the halves named.
bit_and_halves :
    (a b a' b' : ℕ)
    → a / 2 ≡ a'
    → b / 2 ≡ b'
    → bit_and a b ≡ 2 * bit_and a' b' + min (a % 2) (b % 2)
bit_and_halves a b a' b' p q = rw (← p, ← q) (bit_and_digit a b)

-- All ones keep a word.
bit_and_ones : (w a : ℕ) → a < 2 ^ w → bit_and a (2 ^ w - 1) ≡ a
bit_and_ones zero zero h = bit_and-bitwise 0 (2 ^ 0 - 1)
bit_and_ones zero (suc a) h = absurd (omega arith)
bit_and_ones (suc w) a h = omega (
  arith,
  bit_and_halves a (2 ^ suc w - 1) (a / 2) (2 ^ w - 1) refl
      (omega (arith, two-pow-suc w, two-pow-pos w)),
  bit_and_ones w (a / 2) (omega (arith, two-pow-suc w)),
  two-pow-suc w,
  two-pow-pos w,
)

-- Ones above bit `k` clear the bits below it.
pub bit_and_high :
    (k w q r : ℕ)
    → k ≤ w
    → r < 2 ^ k
    → q * 2 ^ k + r < 2 ^ w
    → bit_and (q * 2 ^ k + r) (2 ^ w - 2 ^ k) ≡ q * 2 ^ k
bit_and_high zero w q r h hr hx = omega (arith, bit_and_ones w (q * 1 + r) hx)
bit_and_high (suc k) zero q r h hr hx = elim h [ ]
bit_and_high (suc k) (suc w) q r h hr hx = omega (
  arith,
  bit_and_halves (q * 2 ^ suc k + r) (2 ^ suc w - 2 ^ suc k) (q * 2 ^ k + r / 2) (2 ^ w - 2 ^ k)
      (omega (arith, times-two-pow-suc q k)) (omega (arith, two-pow-suc k, two-pow-suc w)),
  bit_and_high k w q (r / 2) (omega arith) (omega (arith, two-pow-suc k))
      (omega (arith, times-two-pow-suc q k, two-pow-suc w)),
  times-two-pow-suc q k,
  two-pow-suc k,
  two-pow-suc w,
)

bit_and-zero_below : (n a : ℕ) → a ≤ n → bit_and a 0 ≡ 0
bit_and-zero_below n zero h = bit_and-bitwise 0 0
bit_and-zero_below zero (suc a) h = elim h [ ]
bit_and-zero_below (suc n) (suc a) h = omega (
  arith,
  bit_and_halves (suc a) 0 (suc a / 2) 0 refl refl,
  bit_and-zero_below n (suc a / 2) (omega arith),
)

-- Ones below bit `k` keep those bits only.
pub bit_and_low : (k q r : ℕ) → r < 2 ^ k → bit_and (q * 2 ^ k + r) (2 ^ k - 1) ≡ r
bit_and_low zero q r hr = omega (arith, bit_and-zero_below (q * 1 + r) (q * 1 + r) (omega arith))
bit_and_low (suc k) q r hr = omega (
  arith,
  bit_and_halves (q * 2 ^ suc k + r) (2 ^ suc k - 1) (q * 2 ^ k + r / 2) (2 ^ k - 1)
      (omega (arith, times-two-pow-suc q k)) (omega (arith, two-pow-suc k, two-pow-pos k)),
  bit_and_low k q (r / 2) (omega (arith, two-pow-suc k)),
  times-two-pow-suc q k,
  two-pow-suc k,
  two-pow-pos k,
)

-- A mask of `k` low ones is the remainder by `2 ^ k`.
pub bit_and_mask : (k x : ℕ) → bit_and x (2 ^ k - 1) ≡ x % 2 ^ k
bit_and_mask k x =
    let parts : x / 2 ^ k * 2 ^ k + x % 2 ^ k ≡ x = div-add-mod' x (2 ^ k) in
    ap (λ (t : ℕ). bit_and t (2 ^ k - 1)) (sym parts)
    ∙ bit_and_low k (x / 2 ^ k) (x % 2 ^ k) (mod-lt x (two-pow-pos k))
