-- ===== src/Statistics/Tests.antt =====
-- A hundred bytes, of which the inner allocator hands out the next ones; it has detected nothing.
use forge_alloc.Base.{
  ℕ, ◌+◌, ◌≤◌, ◌≡◌, ◌⊎◌, refl, arith, none, some, [], ◌∷◌, All, Bool-cases, inl, inr, ltb, ◌==◌,
  if◌then◌else◌,
}
use forge_alloc.Core.Layout.{NonZeroLayout}
use forge_alloc.Core.Allocator.{Allocator}
use forge_alloc.Statistics.{Statistics, Reads, new_stats, new, raise, allocate}
use forge_alloc.Statistics.Peak
use forge_alloc.Statistics.Peak.{Phase, Among, start-Reach-Maximum}
use forge_alloc.Statistics.Live
use forge_alloc.Statistics.Live.{Counts, total, start-Reach-Counts}

abbrev hundred : Allocator ℕ
hundred = record {
  allocate = λ s l.
      if ltb 100 (s + l.size)
      then (s, none)
      else (s + l.size, some (record { address = 4096 + s; length = l.size }));
  deallocate = λ s ptr l. s;
}

abbrev quiet : ℕ → ℕ
quiet s = 0

abbrev bytes : NonZeroLayout
bytes = record { size = 60; align = 1 }

abbrev zeros : Reads
zeros = record { mirror = 0; peak = 0 }

abbrev first : Statistics ℕ
first = (allocate 64 hundred quiet (new 0) zeros bytes).0

serves_once :
    allocate 64 hundred quiet (new 0) zeros bytes
    ≡ (first, some (record { address = 4096; length = 60 }))
unfolding new allocate
serves_once = refl

counts_a_failure : (allocate 64 hundred quiet first zeros bytes).0.stats.failures ≡ 1
unfolding new allocate
counts_a_failure = refl

start-Reach-Counts_example :
    Counts 64 hundred quiet (record { wrapper = first; live = bytes ∷ []; failed = 0; freed = 0 })
unfolding total
start-Reach-Counts_example =
    start-Reach-Counts 64 hundred quiet 0
      (record { wrapper = first; live = bytes ∷ []; failed = 0; freed = 0 })
      (Live.Reach.next Live.Reach.here (
        Live.Step.serves zeros bytes (record { address = 4096; length = 60 }) serves_once
          (omega arith) refl refl refl))

-- Thread 3 adds its bytes, and raises the peak.
abbrev added : Peak.State
added = record {
  stats = record new_stats { total_allocations = 1; bytes_allocated = 60 };
  threads = Peak.set_thread Peak.start.threads 3 (Phase.raising 60);
  highs = 60 ∷ [];
}

abbrev raised : Peak.State
raised = record {
  stats = record added.stats { bytes_peak = raise 0 0 60 };
  threads = Peak.set_thread added.threads 3 Phase.idle;
  highs = 60 ∷ [];
}

all_idle : (i : ℕ) → raised.threads i ≡ Phase.idle
all_idle i = elim (Bool-cases (i == 3)) [ inl same ↦ rw same refl | inr other ↦ rw other refl ]

start-Reach-Maximum_example :
    All (λ v. v ≤ raised.stats.bytes_peak) (60 ∷ [])
    × ((raised.stats.bytes_peak ≡ 0) ⊎ Among raised.stats.bytes_peak (60 ∷ []))
start-Reach-Maximum_example =
    start-Reach-Maximum 64 raised
      (Peak.Reach.next (Peak.Reach.next Peak.Reach.here (Peak.Step.adds 3 bytes refl refl))
        (Peak.Step.raises 3 0 60 refl (omega arith) refl))
      all_idle
