-- ===== src/Quarantine/Tests.antt =====
-- A quarantine over an inner allocator that logs the addresses it is given back.
use forge_alloc.Base.{ℕ, ◌<◌, ◌≡◌, refl, inl, arith, none, some, List, [], ◌∷◌, ◌++◌}
use forge_alloc.Core.Layout.{NonZeroLayout}
use forge_alloc.Core.Allocator.{Allocator}
use forge_alloc.Quarantine.{QuarantinedBlock, new, evict, allocate, deallocate, take_at, drop}
use forge_alloc.Quarantine.Queue.{Event, delay, run, run_delayed}
use forge_alloc.Quarantine.Runs.{run_delays, wrap_evicts_early}
use forge_alloc.Quarantine.Drain.{give_back, drop-run}

abbrev word : NonZeroLayout
word = record { size = 8; align = 8 }

-- The last address first. An allocation always gets the block at 64.
abbrev log : Allocator (List ℕ)
log = record {
  allocate = λ s l. (s, some (record { address = 64; length = l.size }));
  deallocate = λ s ptr l. ptr ∷ s;
}

abbrev freed : ℕ → Event
freed ptr = Event.frees (record { ptr = ptr; layout = word })

abbrev block_at : ℕ → QuarantinedBlock
block_at ptr = record { ptr = ptr; layout = word }

abbrev three_frees : List Event
three_frees = freed 8 ∷ freed 16 ∷ Event.allocates word ∷ freed 24 ∷ []

abbrev four_frees : List Event
four_frees = freed 8 ∷ freed 16 ∷ freed 24 ∷ freed 32 ∷ []

-- Two places: the third free returns the first block.
returns_the_first : (run log 64 2 (new []) three_frees).0.inner ≡ 8 ∷ []
unfolding run new deallocate evict allocate
returns_the_first = refl

-- The drop returns the other two, in the order of the places.
drop_returns_the_others :
    (drop log 2 (run log 64 2 (new []) three_frees).0).inner ≡ 16 ∷ 24 ∷ 8 ∷ []
unfolding run new deallocate evict allocate drop take_at
drop_returns_the_others = refl

run_delays_example :
    ((run log 64 2 (new []) three_frees).0.inner
      ≡ (run_delayed log 2 (record { inner = []; held = [] }) three_frees).0.inner)
    × ((run log 64 2 (new []) three_frees).1
        ≡ (run_delayed log 2 (record { inner = []; held = [] }) three_frees).1)
run_delays_example = run_delays log 64 2 (omega arith) [] three_frees (inl (omega arith))

-- A counter of two bits and three places: the fifth free returns the block of the fourth.
wrap_evicts_early_example :
    (deallocate log 2 3 (run log 2 3 (new []) four_frees).0 40 word).inner
    ≡ evict log
        (run_delayed log 3 (record { inner = []; held = [] }) four_frees).0.inner
        (some (block_at 32))
unfolding run_delayed delay
wrap_evicts_early_example =
    wrap_evicts_early log 2 3 (omega arith) [] four_frees (block_at 40) refl (omega arith)
      (omega arith)

drop-run_example :
    let q = (run log 64 2 (new []) three_frees).0 in
    let d = (run_delayed log 2 (record { inner = []; held = [] }) three_frees).0 in
    ((older : List QuarantinedBlock) × (newer : List QuarantinedBlock) × (d.held ≡ older ++ newer)
      × ((drop log 2 q).inner ≡ give_back log d.inner (newer ++ older)))
    × ((i : ℕ) → i < 2 → (drop log 2 q).ring i ≡ none)
drop-run_example = drop-run log 64 2 [] three_frees (omega arith) (inl (omega arith))
