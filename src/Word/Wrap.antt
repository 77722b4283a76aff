-- ===== src/Word/Wrap.antt =====
-- Wrapping and checked arithmetic where nothing wraps.
use native.Mathlib.Nat.{mod-eq_of_lt, add-mod_right}
use forge_alloc.Base.{ℕ, ◌+◌, ◌-◌, ◌%◌, ◌^◌, ◌≤◌, ◌<◌, ◌≡◌, ◌∙◌, ap, arith}
use forge_alloc.Word.Defs.{wrapping_add, wrapping_sub}

pub wrapping_sub_le : (w a b : ℕ) → b ≤ a → a < 2 ^ w → wrapping_sub w a b ≡ a - b
wrapping_sub_le w a b h ha =
    ap (λ (t : ℕ). t % 2 ^ w) (shift (2 ^ w))
    ∙ add-mod_right (a - b) (2 ^ w)
    ∙ mod-eq_of_lt (omega arith)
  where
    shift : (m : ℕ) → a + m - b ≡ a - b + m
    shift m = omega arith

pub wrapping_sub_lt : (w a b : ℕ) → a < b → b ≤ 2 ^ w → wrapping_sub w a b ≡ a + 2 ^ w - b
wrapping_sub_lt w a b h hb = mod-eq_of_lt (omega arith)

pub wrapping_add_lt : (w a b : ℕ) → a + b < 2 ^ w → wrapping_add w a b ≡ a + b
wrapping_add_lt w a b h = mod-eq_of_lt h
