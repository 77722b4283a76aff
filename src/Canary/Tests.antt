-- ===== src/Canary/Tests.antt =====
-- An allocator that serves one block after the other and counts the blocks that it is given back.
use forge_alloc.Base.{ℕ, ◌+◌, ◌-◌, ◌≡◌, refl, arith, none, some}
use forge_alloc.Core.Layout.{NonZeroLayout}
use forge_alloc.Core.Memory.{Memory, fill, write}
use forge_alloc.Core.Range.{Block}
use forge_alloc.Core.Allocator.{Allocator}
use forge_alloc.Canary.{
  Canary, pre_pad, inner_layout, volatile_zero_canary, new_with_seed, allocate, deallocate,
}
use forge_alloc.Canary.Detect.{Intact, deallocate_detects}

abbrev endless : Allocator (ℕ × ℕ)
endless = record {
  allocate = λ s l. ((s.0 + l.size, s.1), some (record { address = s.0; length = l.size }));
  deallocate = λ s ptr l. (s.0, s.1 + 1);
}

abbrev words : NonZeroLayout
words = record { size = 20; align = 16 }

abbrev larger : NonZeroLayout
larger = record { size = 44; align = 16 }

abbrev guarded : Canary (ℕ × ℕ)
guarded = record { inner = (4096, 0); value = 1311768467463790320 }

zeros : Memory
zeros a = 0

abbrev served : Block
served = record { address = 4096; length = 44 }

abbrev endless_start : ℕ × ℕ
endless_start = (4096, 0)

-- The client fills its twenty bytes, or one more.
abbrev filled : ℕ → Memory
filled n = fill 4112 66 n (allocate 64 endless guarded zeros words).1

never_zero : (new_with_seed endless_start 0).value ≡ 14627333968688430831
unfolding new_with_seed
never_zero = refl

overflow_panics : deallocate 64 endless guarded (filled 21) 4112 words ≡ none
unfolding allocate deallocate fill write
overflow_panics = refl

passes :
    let returned : ℕ = elim (deallocate 64 endless guarded (filled 20) 4112 words) [
      | none ↦ 0
      | some x ↦ x.0.inner.1
    ] in
    returned ≡ 1
unfolding allocate deallocate fill write
passes = refl

deallocate_detects_example :
    let out = allocate 64 endless guarded zeros words in
    (out.2 ≡ some (record { address = 4096 + pre_pad 16; length = 20 }))
    × (Intact out.1 zeros (4096 + pre_pad 16) 20
        → deallocate 64 endless out.0 zeros (4096 + pre_pad 16) words
          ≡ some (
            record { inner = (4140, 1); value = 1311768467463790320 },
            volatile_zero_canary
                (4096 + pre_pad 16 + 20)
                (volatile_zero_canary (4096 + pre_pad 16 - 8) zeros),
          ))
    × ((¬ (Intact out.1 zeros (4096 + pre_pad 16) 20))
        → deallocate 64 endless out.0 zeros (4096 + pre_pad 16) words ≡ none)
unfolding inner_layout zeros
deallocate_detects_example =
    deallocate_detects 64 endless guarded zeros zeros words larger served (omega arith) refl refl
      (λ a. omega arith)
