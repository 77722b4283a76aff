-- ===== src/Word/Defs.antt =====
-- The operations of Rust on `usize` that the allocators use, at `w` bits.
use forge_alloc.Base.{
  ℕ, zero, suc, ◌+◌, ◌-◌, ◌*◌, ◌/◌, ◌%◌, ◌^◌, bit_and, Bool, true, false, Option, none, some, ltb,
  leb, ◌==◌, if◌then◌else◌,
}

-- `usize::MAX` and `isize::MAX as usize`.
abbrev pub usize_max : ℕ → ℕ
usize_max w = 2 ^ w - 1

abbrev pub isize_max : ℕ → ℕ
isize_max w = 2 ^ (w - 1) - 1

abbrev pub checked_add : ℕ → ℕ → ℕ → Option ℕ
checked_add w a b = if ltb (a + b) (2 ^ w) then some (a + b) else none

abbrev pub checked_mul : ℕ → ℕ → ℕ → Option ℕ
checked_mul w a b = if ltb (a * b) (2 ^ w) then some (a * b) else none

abbrev pub checked_sub : ℕ → ℕ → Option ℕ
checked_sub a b = if ltb a b then none else some (a - b)

abbrev pub wrapping_add : ℕ → ℕ → ℕ → ℕ
wrapping_add w a b = (a + b) % 2 ^ w

abbrev pub wrapping_sub : ℕ → ℕ → ℕ → ℕ
wrapping_sub w a b = (a + 2 ^ w - b) % 2 ^ w

abbrev pub saturating_add : ℕ → ℕ → ℕ → ℕ
saturating_add w a b = if ltb (a + b) (2 ^ w) then a + b else 2 ^ w - 1

abbrev pub saturating_mul : ℕ → ℕ → ℕ → ℕ
saturating_mul w a b = if ltb (a * b) (2 ^ w) then a * b else 2 ^ w - 1

-- `!a`
abbrev pub bit_not : ℕ → ℕ → ℕ
bit_not w a = 2 ^ w - 1 - a

-- `x & !(align - 1)`
unfoldable pub mask_down : ℕ → ℕ → ℕ → ℕ
mask_down w x align = bit_and x (bit_not w (align - 1))

unfoldable pub count_ones : ℕ → ℕ → ℕ
count_ones zero a = 0
count_ones (suc w) a = a % 2 + count_ones w (a / 2)

unfoldable pub trailing_zeros : ℕ → ℕ → ℕ
trailing_zeros zero a = 0
trailing_zeros (suc w) a = if a % 2 == 0 then suc (trailing_zeros w (a / 2)) else 0

unfoldable pub is_power_of_two : ℕ → ℕ → Bool
unfolding count_ones
is_power_of_two w a = count_ones w a == 1

-- The first of `p`, `2 * p`, … that is not below `n`, after `fuel` doublings at most.
unfoldable pub double_up : ℕ → ℕ → ℕ → ℕ
double_up zero p n = p
double_up (suc fuel) p n = elim (leb n p) [ true ↦ p | false ↦ double_up fuel (2 * p) n ]

unfoldable pub next_power_of_two : ℕ → ℕ → ℕ
unfolding double_up
next_power_of_two w n = double_up w 1 n
