-- ===== src/Word/Fields.antt =====
-- `|` and `^` at variables: fields that do not overlap are added, and `^` keeps to the bits of a word.
use Prim.Native.Nat.{max, digits, bit_or, bit_or-bitwise, bit_xor, bit_xor-bitwise, differ}
use forge_alloc.Base.{ℕ, zero, suc, ◌+◌, ◌*◌, ◌/◌, ◌%◌, ◌^◌, ◌≤◌, ◌<◌, ◌≡◌, refl, ap, arith}
use forge_alloc.Word.Bits.{two-pow-suc, times-two-pow-suc}

-- Enough fuel is enough, for every operation on digits.
module _ (z : ℕ → ℕ) (f : ℕ → ℕ → ℕ) where
  fuel_enough : (m n a b : ℕ) → a ≤ m → a ≤ n → digits z f m a b ≡ digits z f n a b
  fuel_enough zero zero a b p q = refl
  fuel_enough zero (suc n) zero b p q = refl
  fuel_enough zero n (suc a) b p q = elim p [ ]
  fuel_enough (suc m) zero zero b p q = refl
  fuel_enough (suc m) (suc n) zero b p q = refl
  fuel_enough (suc m) zero (suc a) b p q = elim q [ ]
  fuel_enough (suc m) (suc n) (suc a) b p q =
      ap (λ (d : ℕ). d * 2 + f (suc a % 2) (b % 2))
        (fuel_enough m n (suc a / 2) (b / 2) (omega arith) (omega arith))

bit_or_digit : (a b : ℕ) → bit_or a b ≡ 2 * bit_or (a / 2) (b / 2) + max (a % 2) (b % 2)
bit_or_digit zero b = omega (arith, bit_or-bitwise 0 b, bit_or-bitwise 0 (b / 2))
bit_or_digit (suc a) b = omega (
  arith,
  bit_or-bitwise (suc a) b,
  bit_or-bitwise (suc a / 2) (b / 2),
  fuel_enough (λ y. y) max a (suc a / 2) (suc a / 2) (b / 2) (omega arith) (omega arith),
)

bit_or-zero_below : (n a : ℕ) → a ≤ n → bit_or a 0 ≡ a
bit_or-zero_below n zero h = bit_or-bitwise 0 0
bit_or-zero_below zero (suc a) h = elim h [ ]
bit_or-zero_below (suc n) (suc a) h =
    omega (arith, bit_or_digit (suc a) 0, bit_or-zero_below n (suc a / 2) (omega arith))

-- A field above bit `k` and one below it.
pub bit_or_sum : (k q r : ℕ) → r < 2 ^ k → bit_or (q * 2 ^ k) r ≡ q * 2 ^ k + r
bit_or_sum zero q zero h = omega (arith, bit_or-zero_below (q * 1) (q * 1) (omega arith))
bit_or_sum zero q (suc r) h = absurd (omega (arith, h))
bit_or_sum (suc k) q r h =
    let half : q * 2 ^ suc k / 2 ≡ q * 2 ^ k = omega (arith, times-two-pow-suc q k) in
    omega (
      arith,
      bit_or_digit (q * 2 ^ suc k) r,
      ap (λ (t : ℕ). bit_or t (r / 2)) half,
      bit_or_sum k q (r / 2) (omega (arith, h, two-pow-suc k)),
      times-two-pow-suc q k,
    )

bit_xor_digit : (a b : ℕ) → bit_xor a b ≡ 2 * bit_xor (a / 2) (b / 2) + differ (a % 2) (b % 2)
bit_xor_digit zero b = omega (arith, bit_xor-bitwise 0 b, bit_xor-bitwise 0 (b / 2))
bit_xor_digit (suc a) b = omega (
  arith,
  bit_xor-bitwise (suc a) b,
  bit_xor-bitwise (suc a / 2) (b / 2),
  fuel_enough (λ y. y) differ a (suc a / 2) (suc a / 2) (b / 2) (omega arith) (omega arith),
)

differ-bound : (a b : ℕ) → a < 2 → b < 2 → differ a b < 2
differ-bound zero b ha hb = hb
differ-bound (suc zero) zero ha hb = omega arith
differ-bound (suc zero) (suc zero) ha hb = omega arith
differ-bound (suc zero) (suc (suc b)) ha hb = absurd (omega (arith, hb))
differ-bound (suc (suc a)) b ha hb = absurd (omega (arith, ha))

-- `^` of two words is a word.
pub bit_xor-bound : (k a b : ℕ) → a < 2 ^ k → b < 2 ^ k → bit_xor a b < 2 ^ k
bit_xor-bound zero zero zero ha hb = omega (arith, bit_xor-bitwise 0 0)
bit_xor-bound zero (suc a) b ha hb = absurd (omega (arith, ha))
bit_xor-bound zero zero (suc b) ha hb = absurd (omega (arith, hb))
bit_xor-bound (suc k) a b ha hb = omega (
  arith,
  bit_xor_digit a b,
  bit_xor-bound k (a / 2) (b / 2) (omega (arith, ha, two-pow-suc k))
      (omega (arith, hb, two-pow-suc k)),
  two-pow-suc k,
  differ-bound (a % 2) (b % 2) (omega arith) (omega arith),
)
