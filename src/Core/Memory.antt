-- ===== src/Core/Memory.antt =====
-- Bytes in memory, and what `core::ptr::copy_nonoverlapping` and `write_bytes` do to them.
use native.Mathlib.Nat.{add-sub_cancel_left}
use forge_alloc.Base.{ℕ, ◌+◌, ◌-◌, ◌≤◌, ◌<◌, ◌≡◌, ◌⊎◌, arith, ap, ltb, leb, ◌&&◌, if◌then◌else◌}

-- The byte at each address.
abbrev pub Memory : Type 0
Memory = ℕ → ℕ

-- `n` bytes from `src` to `dst`.
unfoldable pub copy : ℕ → ℕ → ℕ → Memory → Memory
copy src dst n m a = if leb dst a && ltb a (dst + n) then m (src + (a - dst)) else m a

-- `n` bytes of the value `v` from `dst` on.
unfoldable pub fill : ℕ → ℕ → ℕ → Memory → Memory
fill dst v n m a = if leb dst a && ltb a (dst + n) then v else m a

-- The `n` bytes of a value, given by its representation, at `dst`.
unfoldable pub write : ℕ → ℕ → (ℕ → ℕ) → Memory → Memory
write dst n value m a = if leb dst a && ltb a (dst + n) then value (a - dst) else m a

pub copy_copied :
    (src dst n : ℕ) (m : Memory) (i : ℕ) → i < n → copy src dst n m (dst + i) ≡ m (src + i)
unfolding copy
copy_copied src dst n m i h =
    ground (arith, ap (λ (t : ℕ). m (src + t)) (add-sub_cancel_left dst i))

pub copy_kept :
    (src dst n : ℕ) (m : Memory) (a : ℕ) → (a < dst) ⊎ (dst + n ≤ a) → copy src dst n m a ≡ m a
unfolding copy
copy_kept src dst n m a h = ground arith

pub write_written :
    (dst n : ℕ) (value : ℕ → ℕ) (m : Memory) (i : ℕ)
    → i < n
    → write dst n value m (dst + i) ≡ value i
unfolding write
write_written dst n value m i h = ground (arith, ap value (add-sub_cancel_left dst i))

pub write_kept :
    (dst n : ℕ) (value : ℕ → ℕ) (m : Memory) (a : ℕ)
    → (a < dst) ⊎ (dst + n ≤ a)
    → write dst n value m a ≡ m a
unfolding write
write_kept dst n value m a h = ground arith

pub fill_filled : (dst v n : ℕ) (m : Memory) (i : ℕ) → i < n → fill dst v n m (dst + i) ≡ v
unfolding fill
fill_filled dst v n m i h = ground arith
