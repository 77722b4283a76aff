-- ===== src/Canary.antt =====
-- crates/forge-alloc/src/hardening/canary.rs: `Canary<I>` over an inner allocator with state `S`. A canary
-- word is the eight bytes of a `u64`, the lowest first.
pub mod Detect
mod Tests
use forge_alloc.Base.{
  ℕ, zero, suc, ◌+◌, ◌-◌, ◌*◌, ◌/◌, ◌%◌, Bool, Option, none, some, max, ltb, ◌==◌, if◌then◌else◌,
  ◌>>=◌,
}
use forge_alloc.Word.Defs.{checked_add}
use forge_alloc.Core.Layout.{NonZeroLayout, from_size_align}
use forge_alloc.Core.Bytes.{byte, of_bytes}
use forge_alloc.Core.Memory.{Memory, write, fill}
use forge_alloc.Core.Range.{Block}
use forge_alloc.Core.Allocator.{Allocator}

pub record Canary (S : Type 0) : Type 0 where
  pub inner : S
  pub value : ℕ

unfoldable pub new_with_seed : {S : Type 0} → S → ℕ → Canary S
new_with_seed inner seed = record {
  inner = inner;
  value = if seed == 0 then 14627333968688430831 else seed;
}

unfoldable pub pre_pad : ℕ → ℕ
pre_pad align = if ltb align 8 then 8 else align

unfoldable pub inner_layout : ℕ → NonZeroLayout → Option NonZeroLayout
unfolding pre_pad from_size_align
inner_layout w l = do
  v ← checked_add w (pre_pad l.align) l.size
  total ← checked_add w v 8
  from_size_align w total (max 8 l.align)

-- Whether `verify` returns.
unfoldable pub verify : ℕ → Memory → ℕ → Bool
unfolding of_bytes
verify value m ptr = of_bytes 8 (λ i. m (ptr + i)) == value

unfoldable pub volatile_zero_canary : ℕ → Memory → Memory
volatile_zero_canary ptr m = fill ptr 0 8 m

unfoldable pub place_canaries : ℕ → ℕ → ℕ → Memory → Memory
unfolding byte
place_canaries value user_ptr size m =
    write (user_ptr + size) 8 (byte value) (write (user_ptr - 8) 8 (byte value) m)

module _ {S : Type 0} (w : ℕ) (al : Allocator S) where
  unfoldable pub allocate : Canary S → Memory → NonZeroLayout → Canary S × Memory × Option Block
  unfolding pre_pad inner_layout place_canaries
  allocate c m l = elim (inner_layout w l) [
    | none ↦ (c, m, none)
    | some il ↦
        let (s, got) = al.allocate c.inner il in
        let c' : Canary S = record c { inner = s } in
        elim got [
          | none ↦ (c', m, none)
          | some b ↦
              let user_ptr = b.address + pre_pad l.align in
              (
                c',
                place_canaries c.value user_ptr l.size m,
                some (record { address = user_ptr; length = l.size }),
              )
        ]
  ]

  -- `none` is a panic, with the block not given back.
  unfoldable pub deallocate : Canary S → Memory → ℕ → NonZeroLayout → Option (Canary S × Memory)
  unfolding pre_pad inner_layout verify volatile_zero_canary
  deallocate c m ptr l =
      if verify c.value m (ptr - 8)
      then if verify c.value m (ptr + l.size)
        then elim (inner_layout w l) [
          | none ↦ none
          | some il ↦ some (
            record c { inner = al.deallocate c.inner (ptr - pre_pad l.align) il },
            volatile_zero_canary (ptr + l.size) (volatile_zero_canary (ptr - 8) m),
          )
        ]
        else none
      else none
