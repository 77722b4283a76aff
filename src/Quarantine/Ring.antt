-- ===== src/Quarantine/Ring.antt =====
-- Which places of a ring of `e` places the rounds before the `n`-th use.
use native.Mathlib.Nat.{
  mod-eq_of_lt, add-mod_right, div-add-mod', add-mul-mod_self_right, mod-mod_of_dvd,
  dvd_of_mod-eq-zero,
}
use forge_alloc.Base.{
  ℕ, ◌+◌, ◌-◌, ◌*◌, ◌/◌, ◌%◌, ◌^◌, ◌≤◌, ◌<◌, ◌≡◌, ◌≢◌, ◌⊎◌, ◌∙◌, inl, inr, arith, ap,
}

-- Two rounds less than `e` apart use different places.
pub mod-ne : (e k n : ℕ) → k < n → n < k + e → k % e ≢ n % e
mod-ne e k n h near same = grind (arith, div-add-mod' k e, div-add-mod' n e)

-- The place of a round is that of the round `e` before.
pub mod-sub : (e n : ℕ) → e ≤ n → (n - e) % e ≡ n % e
mod-sub e n h = rw (← add-mod_right (n - e) e) (ap (λ (t : ℕ). t % e) (omega arith))

-- The counter of `w` bits finds the place of round `n`: it has not wrapped, or `e` divides its range.
pub counter_mod : (w e n : ℕ) → (n < 2 ^ w) ⊎ (2 ^ w % e ≡ 0) → n % 2 ^ w % e ≡ n % e
counter_mod w e n (inl small) = ap (λ (t : ℕ). t % e) (mod-eq_of_lt small)
counter_mod w e n (inr divides) = mod-mod_of_dvd e n (dvd_of_mod-eq-zero e divides)

-- The rounds from the last multiple of `e` up to `n` on use the places in order.
pub round_mod : (n e j : ℕ) → j < e → (n - n % e + j) % e ≡ j
round_mod n e j h =
    ap (λ (t : ℕ). t % e) (from_last (n / e * e) (n % e) (div-add-mod' n e))
    ∙ add-mul-mod_self_right j (n / e) e
    ∙ mod-eq_of_lt h
  where
    from_last : (a b : ℕ) → a + b ≡ n → n - b + j ≡ j + a
    from_last a b h = omega arith
