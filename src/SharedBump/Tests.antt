-- ===== src/SharedBump/Tests.antt =====
-- An inline buffer of 64 bytes at 4096 that two threads share.
use forge_alloc.Base.{ℕ, ◌≡◌, refl, arith, true, false, some, List, [], ◌∷◌}
use forge_alloc.Word.Align.{IsAlign, align_up}
use forge_alloc.Core.Layout.{NonZeroLayout}
use forge_alloc.Backing.Inline.{InlineBacked, inline_range}
use forge_alloc.SharedBump.{SharedBumpArena, Turn, offsets, attempt, allocate, new}
use forge_alloc.SharedBump.Threads.{
  State, Phase, Step, Reach, Safe, settle, set_thread, start, round, threads-Safe,
}
use forge_alloc.SharedBump.Loop.{Ends, allocate-Ends}

abbrev buffer : InlineBacked
buffer = record { storage = 4096; capacity = 64; cursor = 0 }

abbrev arena : SharedBumpArena InlineBacked
arena = record { backing = buffer; capacity = 64; cursor = 0 }

abbrev word : NonZeroLayout
word = record { size = 8; align = 8 }

abbrev eight : IsAlign 64 8
eight = record { exponent = 3; fits = omega arith; power = refl }

-- Thread 0 reads the cursor, and its exchange succeeds.
abbrev waiting : State InlineBacked
waiting = record {
  arena = arena;
  threads = set_thread (λ i. Phase.idle) 0 (Phase.trying word 0);
  granted = [];
}

abbrev first_turn : Turn
first_turn = record { seen = 0; spurious = false }

abbrev served : State InlineBacked
served = settle waiting 0 word (round 64 inline_range waiting word 0 first_turn)

path : Reach 64 inline_range (start 64 inline_range arena) served
path =
    Reach.next (Reach.next Reach.here (Step.calls 0 word 0 refl eight (omega arith) refl))
      (Step.rounds 0 word 0 first_turn refl (omega arith) (λ e. refl) refl)

grants_the_first_word :
    served.granted ≡ record { block = record { address = 4096; length = 8 }; layout = word } ∷ []
unfolding settle attempt offsets align_up
grants_the_first_word = refl

threads-Safe_example : Safe 64 inline_range served
unfolding new
threads-Safe_example = threads-Safe 64 inline_range buffer arena served (omega arith) refl path

abbrev byte : NonZeroLayout
byte = record { size = 1; align = 1 }

-- An exchange that fails for no reason, a lost race, and one that succeeds.
abbrev turns : List Turn
turns =
    record { seen = 62; spurious = true }
    ∷ record { seen = 63; spurious = false }
    ∷ record { seen = 63; spurious = false }
    ∷ record { seen = 64; spurious = false }
    ∷ []

answers_the_last_byte :
    allocate 64 4096 64 byte 62 turns ≡ some (some (record { address = 4159; length = 1 }))
unfolding allocate attempt offsets align_up
answers_the_last_byte = refl

allocate-Ends_example : (c : ℕ) × Ends 64 4096 64 byte 62 turns c
allocate-Ends_example =
    allocate-Ends 64 4096 64 byte (record { exponent = 0; fits = omega arith; power = refl }) 62
      turns (omega arith) (omega arith) (omega arith)
