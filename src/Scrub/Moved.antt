-- ===== src/Scrub/Moved.antt =====
-- What stands in memory after a block was freed or moved.
use forge_alloc.Base.{
  ℕ, zero, suc, ◌+◌, ◌≤◌, ◌<◌, ◌≡◌, ◌⊎◌, refl, ◌∙◌, fun_ext, inl, inr, arith, Option, none, some,
  Option-cases, ltb, leb, ◌&&◌, ◌==◌, if◌then◌else◌,
}
use forge_alloc.Core.Layout.{NonZeroLayout}
use forge_alloc.Core.Memory.{Memory, copy, fill, fill_filled, copy_copied, copy_kept}
use forge_alloc.Core.Range.{Block}
use forge_alloc.Core.Allocator.{Allocator}
use forge_alloc.Scrub.{
  PoisonOnFree, zero_from, volatile_zeroize, scrub_len, poison_move, zeroize_move,
}

fill-kept : (dst v n : ℕ) (m : Memory) (a : ℕ) → (a < dst) ⊎ (dst + n ≤ a) → fill dst v n m a ≡ m a
unfolding fill
fill-kept dst v n m a h = ground arith

zero_from-at :
    (ptr i left : ℕ) (m : Memory) (a : ℕ)
    → zero_from ptr i left m a ≡ (if leb (ptr + i) a && ltb a (ptr + (i + left)) then 0 else m a)
unfolding zero_from
zero_from-at ptr i zero m a = ground arith
zero_from-at ptr i (suc left) m a =
    zero_from-at ptr (suc i) left (λ b. if b == ptr + i then 0 else m b) a ∙ ground arith

-- The loop of volatile writes does what one fill does.
pub volatile_zeroize-fill :
    (ptr len : ℕ) (m : Memory) → volatile_zeroize ptr len m ≡ fill ptr 0 len m
unfolding volatile_zeroize fill
volatile_zeroize-fill ptr len m = fun_ext (λ a. zero_from-at ptr 0 len m a ∙ ground arith)

module _ {S : Type 0} (al : Allocator S) (usable_size : S → ℕ → NonZeroLayout → Option ℕ) where
  -- A zeroizing wrapper is a poisoning one with the pattern zero.
  pub zeroize_move-poison_move :
      (s : S) (m : Memory) (ptr : ℕ) (old l : NonZeroLayout) (n : ℕ)
      → let out = zeroize_move al usable_size (record { inner = s }) m ptr old l n in
        poison_move al usable_size (record { inner = s; pattern = 0 }) m ptr old l n
        ≡ (record { inner = out.0.inner; pattern = 0 }, out.1, out.2)
  unfolding zeroize_move poison_move
  zeroize_move-poison_move s m ptr old l n = elim (Option-cases (al.allocate s l).1) [
    | inl full ↦ ground (arith, full)
    | inr (b, got) ↦
        let s' : S = (al.allocate s l).0 in
        let z : zeroize_move al usable_size (record { inner = s }) m ptr old l n ≡ (
          record { inner = al.deallocate s' ptr old },
          volatile_zeroize ptr (scrub_len al usable_size s' ptr old) (copy ptr b.address n m),
          some b,
        ) =
          ground (arith, got) in
        let p : poison_move al usable_size (record { inner = s; pattern = 0 }) m ptr old l n ≡ (
          record { inner = al.deallocate s' ptr old; pattern = 0 },
          fill ptr 0 (scrub_len al usable_size s' ptr old) (copy ptr b.address n m),
          some b,
        ) =
          ground (arith, got) in
        rw
          (
            z,
            p,
            volatile_zeroize-fill ptr (scrub_len al usable_size s' ptr old)
                (copy ptr b.address n m),
          )
          refl
  ]

  -- A block that `grow` or `shrink` moves to one that the old block's usable extent does not touch: the new
  -- block holds the bytes that are to be kept, every byte of the old block's usable extent, its slack
  -- included, is the pattern when the inner allocator gets it back, and no other byte has changed; a
  -- refusal changes no byte and frees nothing.
  pub poison_move-scrubs :
      (t : PoisonOnFree S) (m : Memory) (ptr : ℕ) (old l : NonZeroLayout) (n : ℕ)
      → let out = poison_move al usable_size t m ptr old l n in
        let after = (al.allocate t.inner l).0 in
        let len = scrub_len al usable_size after ptr old in
        ((b : Block)
          → (al.allocate t.inner l).1 ≡ some b
          → (b.address + n ≤ ptr) ⊎ (ptr + len ≤ b.address)
          → (out.2 ≡ some b)
            × (out.0.inner ≡ al.deallocate after ptr old)
            × ((k : ℕ) → k < n → out.1 (b.address + k) ≡ m (ptr + k))
            × ((k : ℕ) → k < len → out.1 (ptr + k) ≡ t.pattern)
            × ((a : ℕ)
                → (a < b.address) ⊎ (b.address + n ≤ a)
                → (a < ptr) ⊎ (ptr + len ≤ a)
                → out.1 a ≡ m a))
        × ((al.allocate t.inner l).1 ≡ none → (out.2 ≡ none) × (out.0.inner ≡ after) × (out.1 ≡ m))
  unfolding poison_move
  poison_move-scrubs t m ptr old l n = (
    λ b got apart.
        let after : S = (al.allocate t.inner l).0 in
        let len : ℕ = scrub_len al usable_size after ptr old in
        let moved : Memory = copy ptr b.address n m in
        let same : poison_move al usable_size t m ptr old l n ≡ (
          record t { inner = al.deallocate after ptr old },
          fill ptr t.pattern len moved,
          some b,
        ) =
          ground (arith, got) in
        rw same (
          refl,
          refl,
          λ k h.
              fill-kept ptr t.pattern len moved (b.address + k)
                (elim apart [ inl x ↦ inl (omega (arith, x, h)) | inr x ↦ inr (omega (arith, x)) ])
              ∙ copy_copied ptr b.address n m k h,
          λ k h. fill_filled ptr t.pattern len moved k h,
          λ a away far.
              fill-kept ptr t.pattern len moved a far ∙ copy_kept ptr b.address n m a away,
        ),
    λ full. (ground (arith, full), ground (arith, full), ground (arith, full)),
  )
