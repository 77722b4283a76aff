-- ===== src/Core/Bytes.antt =====
-- Unaligned reads and writes of a number in memory: its bytes, the lowest first.
use native.Mathlib.Nat.{pow-suc}
use forge_alloc.Base.{ℕ, zero, suc, ◌+◌, ◌*◌, ◌/◌, ◌%◌, ◌^◌, ◌<◌, ◌≡◌, refl, arith}

-- The bytes of a value in memory, and the value of bytes.
unfoldable pub byte : ℕ → ℕ → ℕ
byte v zero = v % 256
byte v (suc i) = byte (v / 256) i

unfoldable pub of_bytes : ℕ → (ℕ → ℕ) → ℕ
of_bytes zero f = 0
of_bytes (suc n) f = f 0 + 256 * of_bytes n (λ i. f (suc i))

pub byte-bound : (v i : ℕ) → byte v i < 256
unfolding byte
byte-bound v zero = omega arith
byte-bound v (suc i) = byte-bound (v / 256) i

power-suc : (n : ℕ) → 256 ^ suc n ≡ 256 * 256 ^ n
power-suc n = omega (arith, pow-suc 256 n)

pub of_bytes-byte : (n v : ℕ) → v < 256 ^ n → of_bytes n (byte v) ≡ v
unfolding of_bytes byte
of_bytes-byte zero v h = omega (arith, h)
of_bytes-byte (suc n) v h =
    let rest : of_bytes n (byte (v / 256)) ≡ v / 256 =
      of_bytes-byte n (v / 256) (omega (arith, h, power-suc n)) in
    omega (arith, rest)

pub of_bytes_cong :
    (n : ℕ) (f g : ℕ → ℕ) → ((i : ℕ) → i < n → f i ≡ g i) → of_bytes n f ≡ of_bytes n g
unfolding of_bytes
of_bytes_cong zero f g h = refl
of_bytes_cong (suc n) f g h = omega (
  arith,
  h 0 (omega arith),
  of_bytes_cong n (λ i. f (suc i)) (λ i. g (suc i)) (λ i below. h (suc i) (omega (arith, below))),
)

pub of_bytes_inj :
    (n : ℕ) (f g : ℕ → ℕ)
    → ((i : ℕ) → f i < 256)
    → ((i : ℕ) → g i < 256)
    → of_bytes n f ≡ of_bytes n g
    → (i : ℕ) → i < n
    → f i ≡ g i
unfolding of_bytes
of_bytes_inj zero f g bf bg e i below = omega (arith, below)
of_bytes_inj (suc n) f g bf bg e zero below = omega (arith, bf 0, bg 0, e)
of_bytes_inj (suc n) f g bf bg e (suc i) below =
    of_bytes_inj n (λ i. f (suc i)) (λ i. g (suc i)) (λ i. bf (suc i)) (λ i. bg (suc i))
      (omega (arith, bf 0, bg 0, e)) i (omega (arith, below))
