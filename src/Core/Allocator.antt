-- ===== src/Core/Allocator.antt =====
-- crates/forge-alloc-core/src/traits/allocator.rs: the `Allocator` trait as a record of operations
-- over a state `S`, and the methods that it defaults. `none` is `AllocError`. What a `deallocate`
-- writes into the block that it frees is left out of the memory here.
use forge_alloc.Base.{ℕ, ◌+◌, ◌≤◌, ◌<◌, ◌≡◌, ◌⊎◌, arith, Option, none, some}
use forge_alloc.Core.Layout.{NonZeroLayout}
use forge_alloc.Core.Memory.{Memory, copy, fill, copy_copied, copy_kept, fill_filled}
use forge_alloc.Core.Range.{Block}

pub record Allocator (S : Type 0) : Type 0 where
  pub allocate : S → NonZeroLayout → S × Option Block
  pub deallocate : S → ℕ → NonZeroLayout → S

module _ {S : Type 0} (i : Allocator S) where
  -- A fresh block, cleared over the size that was asked for.
  unfoldable pub allocate_zeroed : S → Memory → NonZeroLayout → S × Memory × Option Block
  allocate_zeroed s m l =
      let (s', got) = i.allocate s l in
      elim got [ none ↦ (s', m, none) | some b ↦ (s', fill b.address 0 l.size m, some b) ]

  -- The common body of the default `grow` and `shrink`: a fresh block, `n` bytes copied, and the
  -- old block given back.
  unfoldable pub move_to :
      S → Memory → ℕ → NonZeroLayout → NonZeroLayout → ℕ → S × Memory × Option Block
  move_to s m ptr old l n =
      let (s', got) = i.allocate s l in
      elim got [
        | none ↦ (s', m, none)
        | some b ↦ (i.deallocate s' ptr old, copy ptr b.address n m, some b)
      ]

  unfoldable pub grow : S → Memory → ℕ → NonZeroLayout → NonZeroLayout → S × Memory × Option Block
  unfolding move_to
  grow s m ptr old l = move_to s m ptr old l old.size

  unfoldable pub shrink : S → Memory → ℕ → NonZeroLayout → NonZeroLayout → S × Memory × Option Block
  unfolding move_to
  shrink s m ptr old l = move_to s m ptr old l l.size

  -- The default `grow` of a block returns what `allocate` does: on success the old bytes stand at the
  -- front of the new block, the copy changes no other byte, and the old block is given back;
  -- a refusal changes no byte and gives nothing back.
  pub grow-allocate :
      (s : S) (m : Memory) (ptr : ℕ) (old l : NonZeroLayout)
      → let out = grow s m ptr old l in
        (out.2 ≡ (i.allocate s l).1)
        × ((b : Block)
            → (i.allocate s l).1 ≡ some b
            → (out.0 ≡ i.deallocate (i.allocate s l).0 ptr old)
              × ((k : ℕ) → k < old.size → out.1 (b.address + k) ≡ m (ptr + k))
              × ((x : ℕ) → (x < b.address) ⊎ (b.address + old.size ≤ x) → out.1 x ≡ m x))
        × ((i.allocate s l).1 ≡ none → (out.0 ≡ (i.allocate s l).0) × (out.1 ≡ m))
  unfolding grow
  grow-allocate s m ptr old l = (
    ground arith,
    λ b got. (
      ground (arith, got),
      λ k h. ground (arith, got, copy_copied ptr b.address old.size m k h),
      λ x away. ground (arith, got, copy_kept ptr b.address old.size m x away),
    ),
    λ full. (ground (arith, full), ground (arith, full)),
  )

  -- The default `shrink` of a block returns what `allocate` does: on success as many bytes as the new
  -- size asks for are copied and the old block is given back; a refusal changes no byte and gives
  -- nothing back.
  pub shrink-allocate :
      (s : S) (m : Memory) (ptr : ℕ) (old l : NonZeroLayout)
      → let out = shrink s m ptr old l in
        (out.2 ≡ (i.allocate s l).1)
        × ((b : Block)
            → (i.allocate s l).1 ≡ some b
            → (out.0 ≡ i.deallocate (i.allocate s l).0 ptr old)
              × ((k : ℕ) → k < l.size → out.1 (b.address + k) ≡ m (ptr + k)))
        × ((i.allocate s l).1 ≡ none → (out.0 ≡ (i.allocate s l).0) × (out.1 ≡ m))
  unfolding shrink
  shrink-allocate s m ptr old l = (
    ground arith,
    λ b got.
        (ground (arith, got), λ k h. ground (arith, got, copy_copied ptr b.address l.size m k h)),
    λ full. (ground (arith, full), ground (arith, full)),
  )

  -- A cleared allocation returns the block and the state that `allocate` does; every byte
  -- that was asked for reads zero, and a refusal changes no byte.
  pub allocate_zeroed_lem :
      (s : S) (m : Memory) (l : NonZeroLayout)
      → ((allocate_zeroed s m l).0 ≡ (i.allocate s l).0)
        × ((allocate_zeroed s m l).2 ≡ (i.allocate s l).1)
        × ((b : Block)
            → (i.allocate s l).1 ≡ some b
            → (k : ℕ) → k < l.size
            → (allocate_zeroed s m l).1 (b.address + k) ≡ 0)
        × ((i.allocate s l).1 ≡ none → (allocate_zeroed s m l).1 ≡ m)
  unfolding allocate_zeroed
  allocate_zeroed_lem s m l = (
    ground arith,
    ground arith,
    λ b got k h. ground (arith, got, fill_filled b.address 0 l.size m k h),
    λ full. ground (arith, full),
  )
