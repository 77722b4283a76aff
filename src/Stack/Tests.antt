-- ===== src/Stack/Tests.antt =====
-- A stack of 64 bytes at the address 4104, over an inline buffer.
use forge_alloc.Base.{◌≡◌, refl, arith, none, some, [], ◌∷◌, true, false}
use forge_alloc.Word.Align.{IsAlign, align_up}
use forge_alloc.Core.Layout.{NonZeroLayout}
use forge_alloc.Core.Range.{Block}
use forge_alloc.Cursor.{place}
use forge_alloc.Backing.Inline.{InlineBacked, inline_range, inline-IsFixed}
use forge_alloc.Stack.{StackAlloc, new, with_max_depth, pop, allocate, deallocate}
use forge_alloc.Stack.Frames.{IsValid}
use forge_alloc.Stack.Run.{State, Step, Reach, Sound, new-Reach-Sound}

abbrev buffer : InlineBacked
buffer = record { storage = 4104; capacity = 64; cursor = 0 }

abbrev fresh : StackAlloc InlineBacked
fresh = record { backing = buffer; capacity = 64; cursor = 0; frames = [] }

abbrev words : NonZeroLayout
words = record { size = 16; align = 16 }

abbrev used : StackAlloc InlineBacked
used = record fresh { cursor = 24; frames = (8, 0) ∷ [] }

abbrev first : Block
first = record { address = 4112; length = 16 }

words-IsAlign : IsAlign 64 16
words-IsAlign = record { exponent = 4; fits = omega arith; power = refl }

fresh-IsValid : IsValid 64 inline_range fresh
fresh-IsValid = record { covers = refl; inside = omega arith; below = omega arith; stacked = refl }

makes_fresh : new 64 inline_range (λ n. true) buffer ≡ some fresh
unfolding new with_max_depth
makes_fresh = refl

-- A depth that the heap cannot hold is an error, not a panic.
refuses_depth : with_max_depth 64 inline_range (λ n. false) buffer 1000 ≡ none
unfolding with_max_depth
refuses_depth = refl

pushes_first : allocate 64 inline_range fresh words ≡ (used, some first)
unfolding allocate place align_up
pushes_first = refl

-- A free of another address changes nothing.
keeps_used : deallocate 64 inline_range used 4104 words ≡ used
unfolding deallocate pop
keeps_used = refl

abbrev after_wrong_free : State InlineBacked
after_wrong_free = record { stack = used; live = first ∷ [] }

reaches_wrong_free : Reach 64 inline_range (record { stack = fresh; live = [] }) after_wrong_free
reaches_wrong_free =
    Reach.next {y = after_wrong_free}
      (Reach.next Reach.here
        (Step.allocates words first words-IsAlign (omega arith) pushes_first refl))
      (Step.frees 4104 words (omega arith) keeps_used refl)

new-Reach-Sound_example : Sound 64 inline_range after_wrong_free
new-Reach-Sound_example =
    new-Reach-Sound 64 inline_range inline-IsFixed (λ n. true) buffer fresh (omega arith)
      makes_fresh reaches_wrong_free
