-- ===== src/Word/Align.antt =====
-- Rounding an address up to a power of two, as `(raw + (align - 1)) & !(align - 1)` does.
use forge_alloc.Base.{
  ℕ, zero, suc, ◌+◌, ◌-◌, ◌*◌, ◌/◌, ◌%◌, ◌^◌, ◌≤◌, ◌<◌, ◌≡◌, ap, subst, arith, bit_and, Option,
  none, some, ◌>>=◌,
}
use native.Mathlib.Nat.{mod-lt, div-add-mod', mul-mod_left, sub-zero, mul-one}
use forge_alloc.Word.Defs.{checked_add, mask_down}
use forge_alloc.Word.Bits.{two-pow-suc, two-pow-pos, two-pow_mono, times-two-pow-suc, bit_and_high}

-- `align` is a power of two that a word of `w` bits can hold.
pub record IsAlign (w align : ℕ) : Type 0 where
  pub exponent : ℕ
  pub fits : exponent < w
  pub power : align ≡ 2 ^ exponent

abbrev pub IsAligned : ℕ → ℕ → Type 0
IsAligned address align = address % align ≡ 0

-- `raw.checked_add(align - 1)? & !(align - 1)`
unfoldable pub align_up : ℕ → ℕ → ℕ → Option ℕ
unfolding mask_down
align_up w raw align = do v ← checked_add w raw (align - 1); some (mask_down w v align)

pub mask_down_lem : (w k x : ℕ) → k ≤ w → x < 2 ^ w → mask_down w x (2 ^ k) ≡ x / 2 ^ k * 2 ^ k
unfolding mask_down
mask_down_lem w k x h hx =
    let mask : 2 ^ w - 1 - (2 ^ k - 1) ≡ 2 ^ w - 2 ^ k =
      omega (arith, two-pow-pos k, two-pow_mono k w h) in
    let parts : x / 2 ^ k * 2 ^ k + x % 2 ^ k ≡ x = div-add-mod' x (2 ^ k) in
    rw (mask, ← ap (λ (t : ℕ). bit_and t (2 ^ w - 2 ^ k)) parts)
      (bit_and_high k w (x / 2 ^ k) (x % 2 ^ k) h (mod-lt x (two-pow-pos k)) (rw parts hx))

-- Two multiples of `n` less than `n` apart in the one direction are in order.
multiples_le : (n a b : ℕ) → 1 ≤ n → a % n ≡ 0 → b % n ≡ 0 → a < b + n → a ≤ b
multiples_le n a b hn ha hb h = grind arith

pub two-pow-split : (k w : ℕ) → k ≤ w → 2 ^ w ≡ 2 ^ (w - k) * 2 ^ k
two-pow-split zero w h = simp (sub-zero, mul-one)
two-pow-split (suc k) zero h = elim h [ ]
two-pow-split (suc k) (suc w) h = omega (
  arith,
  two-pow-split k w (omega arith),
  two-pow-suc w,
  times-two-pow-suc (2 ^ (w - k)) k,
  ap (λ (t : ℕ). 2 ^ t * 2 ^ suc k) (fall w k),
)
  where
    fall : (v j : ℕ) → suc v - suc j ≡ v - j
    fall v j = omega arith

-- The address space ends at a multiple of every alignment.
pub two-pow-IsAligned : (k w : ℕ) → k ≤ w → IsAligned (2 ^ w) (2 ^ k)
two-pow-IsAligned k w h = rw (two-pow-split k w h) (mul-mod_left (2 ^ (w - k)) (2 ^ k))

-- What `align_up` returns: the least multiple of `align` that is not below `raw`.
pub record Rounds (raw align result : ℕ) : Type 0 where
  pub above : raw ≤ result
  pub near : result < raw + align
  pub aligned : IsAligned result align

pub IsAlign-pos : {w align : ℕ} → IsAlign w align → 1 ≤ align
IsAlign-pos a = rw a.power (two-pow-pos a.exponent)

pub IsAlign-lt : {w align : ℕ} → IsAlign w align → align < 2 ^ w
IsAlign-lt {w} a = rw a.power (
    omega (
      arith,
      two-pow-pos a.exponent,
      two-pow-suc a.exponent,
      two-pow_mono (suc a.exponent) w a.fits,
    ))

module _ (w raw align : ℕ) (a : IsAlign w align) where
  mask_down-eq : (x : ℕ) → x < 2 ^ w → mask_down w x align ≡ x / align * align
  mask_down-eq x h = rw a.power (mask_down_lem w a.exponent x (omega (arith, a.fits)) h)

  pub mask_down-Rounds :
      raw + (align - 1) < 2 ^ w → Rounds raw align (mask_down w (raw + (align - 1)) align)
  mask_down-Rounds h =
      let x : ℕ = raw + (align - 1) in
      let e : mask_down w x align ≡ x / align * align = mask_down-eq x h in
      let pos : 1 ≤ align = IsAlign-pos a in
      let parts : x / align * align + x % align ≡ x = div-add-mod' x align in
      let small : x % align < align = mod-lt x pos in
      record {
        above = omega (arith, e, parts, small, pos);
        near = omega (arith, e, parts, small, pos);
        aligned = rw e (mul-mod_left (x / align) align);
      }

  pub align_up-Rounds : {result : ℕ} → align_up w raw align ≡ some result → Rounds raw align result
  unfolding align_up
  align_up-Rounds {result} e =
      subst (Rounds raw align) (ground (arith, e)) (mask_down-Rounds (ground (arith, e)))

  pub align_up-lt : {result : ℕ} → align_up w raw align ≡ some result → result < 2 ^ w
  unfolding align_up
  align_up-lt {result} e =
      let r : Rounds raw align result = align_up-Rounds e in
      let fits : raw + (align - 1) < 2 ^ w = ground (arith, e) in
      omega (arith, r.near, IsAlign-pos a)

  -- It fails only where no multiple of `align` from `raw` on is an address.
  pub align_up-none :
      {b : ℕ} → align_up w raw align ≡ none → IsAligned b align → raw ≤ b → 2 ^ w ≤ b
  unfolding align_up
  align_up-none {b} e hb h =
      let pos : 1 ≤ align = IsAlign-pos a in
      multiples_le align (2 ^ w) b pos
        (rw a.power (two-pow-IsAligned a.exponent w (omega (arith, a.fits)))) hb (ground (arith, e))

-- No address from `raw` on that is aligned lies below the result.
pub Rounds-least :
    (raw align result b : ℕ)
    → 1 ≤ align
    → Rounds raw align result
    → IsAligned b align
    → raw ≤ b
    → result ≤ b
Rounds-least raw align result b pos r hb h =
    multiples_le align result b pos r.aligned hb (omega arith)
