-- ===== src/Scrub.antt =====
-- crates/forge-alloc/src/hardening/poison.rs and zeroize.rs: `PoisonOnFree<I>` and `ZeroizeOnFree<I>` over an
-- inner allocator with state `S`, whose `usable_size` is an argument. The memory that a free answers is
-- the one that the inner allocator is given. `grow` and `shrink` are the trait's own, which free the old
-- block through the wrapper.
pub mod Moved
mod Tests
use forge_alloc.Base.{ℕ, zero, suc, ◌+◌, Option, none, some, ◌==◌, if◌then◌else◌}
use forge_alloc.Core.Layout.{NonZeroLayout}
use forge_alloc.Core.Memory.{Memory, copy, fill}
use forge_alloc.Core.Range.{Block}
use forge_alloc.Core.Allocator.{Allocator}

-- `DEFAULT_POISON`
abbrev pub default_poison : ℕ
default_poison = 222

pub record PoisonOnFree (S : Type 0) : Type 0 where
  pub inner : S
  pub pattern : ℕ

pub record ZeroizeOnFree (S : Type 0) : Type 0 where
  pub inner : S

unfoldable pub poison_new : {S : Type 0} → S → PoisonOnFree S
poison_new inner = record { inner = inner; pattern = default_poison }

unfoldable pub with_pattern : {S : Type 0} → S → ℕ → PoisonOnFree S
with_pattern inner pattern = record { inner = inner; pattern = pattern }

unfoldable pub zeroize_new : {S : Type 0} → S → ZeroizeOnFree S
zeroize_new inner = record { inner = inner }

-- The loop of volatile writes: the bytes from `i` on, as many as are left.
unfoldable pub zero_from : ℕ → ℕ → ℕ → Memory → Memory
zero_from ptr i zero m = m
zero_from ptr i (suc left) m = zero_from ptr (suc i) left (λ a. if a == ptr + i then 0 else m a)

unfoldable pub volatile_zeroize : ℕ → ℕ → Memory → Memory
unfolding zero_from
volatile_zeroize ptr len m = zero_from ptr 0 len m

module _ {S : Type 0} (al : Allocator S) (usable_size : S → ℕ → NonZeroLayout → Option ℕ) where
  -- The usable extent of a block, or its size.
  unfoldable pub scrub_len : S → ℕ → NonZeroLayout → ℕ
  scrub_len s ptr l = elim (usable_size s ptr l) [ none ↦ l.size | some n ↦ n ]

  unfoldable pub poison_free : PoisonOnFree S → Memory → ℕ → NonZeroLayout → PoisonOnFree S × Memory
  unfolding scrub_len
  poison_free t m ptr l = (
    record t { inner = al.deallocate t.inner ptr l },
    fill ptr t.pattern (scrub_len t.inner ptr l) m,
  )

  unfoldable pub zeroize_free :
      ZeroizeOnFree S → Memory → ℕ → NonZeroLayout → ZeroizeOnFree S × Memory
  unfolding scrub_len volatile_zeroize
  zeroize_free t m ptr l = (
    record { inner = al.deallocate t.inner ptr l },
    volatile_zeroize ptr (scrub_len t.inner ptr l) m,
  )

  unfoldable pub poison_allocate : PoisonOnFree S → NonZeroLayout → PoisonOnFree S × Option Block
  poison_allocate t l = let (s, got) = al.allocate t.inner l in (record t { inner = s }, got)

  unfoldable pub zeroize_allocate : ZeroizeOnFree S → NonZeroLayout → ZeroizeOnFree S × Option Block
  zeroize_allocate t l = let (s, got) = al.allocate t.inner l in (record { inner = s }, got)

  -- The default `grow` (`n` is the old size) and `shrink` (`n` is the new one) of a poisoning wrapper.
  unfoldable pub poison_move :
      PoisonOnFree S
      → Memory
      → ℕ
      → NonZeroLayout
      → NonZeroLayout
      → ℕ
      → PoisonOnFree S × Memory × Option Block
  unfolding poison_allocate poison_free
  poison_move t m ptr old l n =
      let (t', got) = poison_allocate t l in
      elim got [
        | none ↦ (t', m, none)
        | some b ↦
            let (t'', m') = poison_free t' (copy ptr b.address n m) ptr old in (t'', m', some b)
      ]

  unfoldable pub zeroize_move :
      ZeroizeOnFree S
      → Memory
      → ℕ
      → NonZeroLayout
      → NonZeroLayout
      → ℕ
      → ZeroizeOnFree S × Memory × Option Block
  unfolding zeroize_allocate zeroize_free
  zeroize_move t m ptr old l n =
      let (t', got) = zeroize_allocate t l in
      elim got [
        | none ↦ (t', m, none)
        | some b ↦
            let (t'', m') = zeroize_free t' (copy ptr b.address n m) ptr old in (t'', m', some b)
      ]
