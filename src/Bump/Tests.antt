-- ===== src/Bump/Tests.antt =====
-- An arena of 64 bytes at the address 4104, over an inline buffer.

use forge_alloc.Base.{◌≤◌, ◌≡◌, refl, arith, none, some, [], ◌∷◌}
use forge_alloc.Word.Align.{IsAlign, align_up}
use forge_alloc.Core.Layout.{
  NonZeroLayout, TypeLayout, array, array_of, for_type, pad_to_align, new as new_layout,
}
use forge_alloc.Core.Memory.{Memory, copy}
use forge_alloc.Core.Range.{Block}
use forge_alloc.Cursor.{place}
use forge_alloc.Backing.Inline.{InlineBacked, inline_range, inline-IsFixed}
use forge_alloc.Bump.{BumpArena, new, allocate, grow, relocate, alloc_slice_copy, scope, drop_scope}
use forge_alloc.Bump.Allocate.{IsValid, allocate_complete}
use forge_alloc.Bump.Grow.{Grown, grow-Grown}
use forge_alloc.Bump.Live.{new-Reach-Safe}
use forge_alloc.Bump.Steps.{State, Step, Reach, Safe}
use forge_alloc.Bump.Scopes.{Body, run_body, scope_restores}

abbrev buffer : InlineBacked
buffer = record { storage = 4104; capacity = 64; cursor = 0 }

abbrev fresh : BumpArena InlineBacked
fresh = record { backing = buffer; capacity = 64; cursor = 0 }

abbrev words : NonZeroLayout
words = record { size = 16; align = 16 }

-- 4104 is rounded up to 4112.
abbrev used : BumpArena InlineBacked
used = record fresh { cursor = 24 }

abbrev first : Block
first = record { address = 4112; length = 16 }

words-IsAlign : IsAlign 64 16
words-IsAlign = record { exponent = 4; fits = omega arith; power = refl }

fresh-IsValid : IsValid 64 inline_range fresh
fresh-IsValid = record { covers = refl; inside = omega arith; below = omega arith }

used-IsValid : IsValid 64 inline_range used
used-IsValid = record { covers = refl; inside = omega arith; below = omega arith }

allocates_first : allocate 64 inline_range fresh words ≡ (used, some first)
unfolding allocate place align_up
allocates_first = refl

refuses_large : allocate 64 inline_range fresh (record { size = 65; align = 1 }) ≡ (fresh, none)
unfolding allocate place align_up
refuses_large = refl

-- 4128 is an aligned address at which sixteen bytes fit.
allocate_complete_example :
    (b : Block) × ((allocate 64 inline_range fresh words).1 ≡ some b) × (b.address ≤ 4128)
allocate_complete_example =
    allocate_complete 64 inline_range inline-IsFixed fresh words fresh-IsValid words-IsAlign 4128
      (λ o. refl) refl (omega arith) (omega arith)

abbrev wide : NonZeroLayout
wide = record { size = 32; align = 16 }

abbrev grown : BumpArena InlineBacked
grown = record fresh { cursor = 40 }

grows_in_place :
    (m : Memory)
    → grow 64 inline_range used m 4112 words wide
      ≡ (grown, m, some (record { address = 4112; length = 32 }))
unfolding grow relocate allocate place align_up
grows_in_place m = refl

zeroes : Memory
zeroes a = 0

grow-Grown_example :
    Grown 64 inline_range used zeroes 4112 words wide grown zeroes
      (record { address = 4112; length = 32 })
grow-Grown_example =
    grow-Grown 64 inline_range inline-IsFixed used zeroes 4112 words wide used-IsValid words-IsAlign
      (omega arith) (omega arith) refl (grows_in_place zeroes)

abbrev after_first : State InlineBacked
after_first = record { arena = used; live = first ∷ [] }

reaches_first : Reach 64 inline_range (record { arena = fresh; live = [] }) after_first
reaches_first =
    Reach.next Reach.here
      (Step.allocates words first words-IsAlign (omega arith) allocates_first refl)

makes_fresh : new 64 inline_range buffer ≡ some fresh
unfolding new
makes_fresh = refl

new-Reach-Safe_example : Safe 64 inline_range after_first
new-Reach-Safe_example =
    new-Reach-Safe 64 inline_range inline-IsFixed buffer fresh makes_fresh reaches_first

-- An allocation, a scope with an allocation inside, and one that is refused.
abbrev body : Body
body = Body.take words (
    Body.inner (Body.take words Body.done) (Body.take (record { size = 65; align = 16 }) Body.done))

scope_restores_example :
    let s = run_body 64 inline_range (scope used) body in
    ((drop_scope s).cursor ≡ 24)
    × IsValid 64 inline_range (drop_scope s)
    × ((drop_scope s).backing.storage ≡ 4104)
    × (s.mark ≤ s.arena.cursor)
scope_restores_example =
    scope_restores 64 inline_range inline-IsFixed used body used-IsValid
      (words-IsAlign, ((words-IsAlign, tt), (words-IsAlign, tt)))

abbrev u64_type : TypeLayout
u64_type = record { size_of = 8; align_of = 8 }

copies_slice : alloc_slice_copy 64 inline_range used zeroes u64_type 9000 3 ≡ (
  record fresh { cursor = 48 },
  copy 9000 4128 24 zeroes,
  some (record { address = 4128; length = 24 }),
)
unfolding alloc_slice_copy array array_of for_type pad_to_align new_layout allocate place align_up
copies_slice = refl
