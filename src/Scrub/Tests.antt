-- ===== src/Scrub/Tests.antt =====
-- An allocator that serves one block after the other; the usable extent is four bytes longer.
use forge_alloc.Base.{ℕ, ◌+◌, ◌≤◌, ◌<◌, ◌≡◌, ◌⊎◌, refl, Option, none, some}
use forge_alloc.Core.Layout.{NonZeroLayout}
use forge_alloc.Core.Memory.{Memory, fill}
use forge_alloc.Core.Range.{Block}
use forge_alloc.Core.Allocator.{Allocator}
use forge_alloc.Scrub.{PoisonOnFree, poison_move, scrub_len, volatile_zeroize}
use forge_alloc.Scrub.Moved.{poison_move-scrubs}

abbrev stream : Allocator ℕ
stream = record {
  allocate = λ s l. (s + l.size, some (record { address = s; length = l.size }));
  deallocate = λ s ptr l. s;
}

abbrev with_slack : ℕ → ℕ → NonZeroLayout → Option ℕ
with_slack s ptr l = some (l.size + 4)

abbrev bytes : ℕ → NonZeroLayout
bytes n = record { size = n; align = 1 }

abbrev ones : Memory
ones a = 1

abbrev poisoned : PoisonOnFree ℕ
poisoned = record { inner = 4096; pattern = 222 }

scrubs_the_slack :
    (poison_move stream with_slack poisoned ones 1000 (bytes 8) (bytes 16) 8).1 1011 ≡ 222
unfolding poison_move fill
scrubs_the_slack = refl

zeroes_five : volatile_zeroize 1000 5 ones 1004 ≡ 0
unfolding volatile_zeroize
zeroes_five = refl

poison_move-scrubs_example :
    let out = poison_move stream with_slack poisoned ones 1000 (bytes 8) (bytes 16) 8 in
    let after = (stream.allocate 4096 (bytes 16)).0 in
    let len = scrub_len stream with_slack after 1000 (bytes 8) in
    ((b : Block)
      → (stream.allocate 4096 (bytes 16)).1 ≡ some b
      → (b.address + 8 ≤ 1000) ⊎ (1000 + len ≤ b.address)
      → (out.2 ≡ some b)
        × (out.0.inner ≡ stream.deallocate after 1000 (bytes 8))
        × ((k : ℕ) → k < 8 → out.1 (b.address + k) ≡ ones (1000 + k))
        × ((k : ℕ) → k < len → out.1 (1000 + k) ≡ 222)
        × ((a : ℕ)
            → (a < b.address) ⊎ (b.address + 8 ≤ a)
            → (a < 1000) ⊎ (1000 + len ≤ a)
            → out.1 a ≡ ones a))
    × ((stream.allocate 4096 (bytes 16)).1 ≡ none
        → (out.2 ≡ none) × (out.0.inner ≡ after) × (out.1 ≡ ones))
poison_move-scrubs_example =
    poison_move-scrubs stream with_slack poisoned ones 1000 (bytes 8) (bytes 16) 8
