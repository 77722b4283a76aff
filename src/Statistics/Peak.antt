-- ===== src/Statistics/Peak.antt =====
-- The peak over any number of threads that allocate and free, in any order of their atomic steps: an
-- allocation adds to the byte count in one step, and raises the peak to what it then had in another.
use forge_alloc.Base.{
  ℕ, ◌≤◌, ◌≡◌, ◌≢◌, ◌⊎◌, refl, sym, ap, subst, ◌∙◌, inl, inr, arith, true, Bool-cases, List, [],
  ◌∷◌, All, All-map, ltb, ◌==◌, if◌then◌else◌,
}
use forge_alloc.Word.Defs.{saturating_add, wrapping_add, wrapping_sub}
use forge_alloc.Core.Layout.{NonZeroLayout}
use forge_alloc.Statistics.{AllocStats, new_stats, raise}

-- A thread is in no call, or about to raise the peak.
pub data Phase : Type 0 where
  idle : Phase
  raising : ℕ → Phase

-- `highs` are the sums to which allocations counted up, where a sum past a word is the largest word; the byte
-- count itself wraps, which it does only after frees of more bytes than were counted.
pub record State : Type 0 where
  pub stats : AllocStats
  pub threads : ℕ → Phase
  pub highs : List ℕ

abbrev pub set_thread : (ℕ → Phase) → ℕ → Phase → ℕ → Phase
set_thread threads i p j = if j == i then p else threads j

abbrev pub start : State
start = record { stats = new_stats; threads = λ i. Phase.idle; highs = [] }

module _ (w : ℕ) where
  pub data Step (s t : State) : Type 0 where
    adds :
        (i : ℕ) (l : NonZeroLayout)
        → s.threads i ≡ Phase.idle
        → t ≡ record {
          stats = record s.stats {
            total_allocations = wrapping_add w s.stats.total_allocations 1;
            bytes_allocated = wrapping_add w s.stats.bytes_allocated l.size;
          };
          threads =
              set_thread s.threads i
                (Phase.raising (saturating_add w s.stats.bytes_allocated l.size));
          highs = saturating_add w s.stats.bytes_allocated l.size ∷ s.highs;
        }
        → Step s t
    raises :
        (i seen value : ℕ)
        → s.threads i ≡ Phase.raising value
        → seen ≤ s.stats.bytes_peak
        → t ≡ record {
          stats = record s.stats { bytes_peak = raise seen s.stats.bytes_peak value };
          threads = set_thread s.threads i Phase.idle;
          highs = s.highs;
        }
        → Step s t
    subtracts :
        (l : NonZeroLayout)
        → t ≡ record s {
          stats = record s.stats {
            total_deallocations = wrapping_add w s.stats.total_deallocations 1;
            bytes_allocated = wrapping_sub w s.stats.bytes_allocated l.size;
          };
        }
        → Step s t

  pub data Reach (s : State) : State → Type 0 where
    here : Reach s s
    next : {t u : State} → Reach s t → Step t u → Reach s u

pub data Among (v : ℕ) : List ℕ → Type 0 where
  first : {xs : List ℕ} → Among v (v ∷ xs)
  later : {x : ℕ} {xs : List ℕ} → Among v xs → Among v (x ∷ xs)

-- A value is below the peak, or some thread is about to raise the peak to it.
abbrev Covered : State → ℕ → Type 0
Covered s v = (v ≤ s.stats.bytes_peak) ⊎ ((i : ℕ) × (s.threads i ≡ Phase.raising v))

record Tracked (s : State) : Type 0 where
  covered : All (Covered s) s.highs
  attained : (s.stats.bytes_peak ≡ 0) ⊎ Among s.stats.bytes_peak s.highs
  pending : (i v : ℕ) → s.threads i ≡ Phase.raising v → Among v s.highs

raise-cases :
    (seen counter value : ℕ)
    → seen ≤ counter
    → (counter ≤ raise seen counter value)
      × (value ≤ raise seen counter value)
      × ((raise seen counter value ≡ counter) ⊎ (raise seen counter value ≡ value))
unfolding raise
raise-cases seen counter value h = elim (Bool-cases (ltb seen value)) [
  | inl higher ↦ elim (Bool-cases (ltb counter value)) [
    | inl more ↦
        (ground (arith, higher), ground (arith, higher), inr (ground (arith, higher, more)))
    | inr less ↦
        (ground (arith, higher), ground (arith, higher), inl (ground (arith, higher, less)))
  ]
  | inr lower ↦ (ground (arith, lower), ground (arith, lower, h), inl (ground (arith, lower)))
]

-- The thread `i` and the others after `i` was set.
set_thread-cases :
    (threads : ℕ → Phase) (i : ℕ) (p : Phase) (j : ℕ)
    → ((j ≡ i) × (set_thread threads i p j ≡ p)) ⊎ (set_thread threads i p j ≡ threads j)
set_thread-cases threads i p j = elim (Bool-cases (j == i)) [
  | inl same ↦ inl (ground (arith, same), rw same refl)
  | inr other ↦ inr (rw other refl)
]

set_thread_self : (threads : ℕ → Phase) (i : ℕ) (p : Phase) → set_thread threads i p i ≡ p
set_thread_self threads i p = rw (same i) refl
  where
    same : (j : ℕ) → (j == j) ≡ true
    same j = ground arith

abbrev phase_value : Phase → ℕ
phase_value Phase.idle = 0
phase_value (Phase.raising v) = v

not-idle : (v : ℕ) → Phase.raising v ≢ Phase.idle
not-idle v e = cc

module _ (w : ℕ) where
  adds-Tracked :
      (s : State) (i new : ℕ) (stats : AllocStats)
      → s.threads i ≡ Phase.idle
      → stats.bytes_peak ≡ s.stats.bytes_peak
      → Tracked s
      → Tracked (record {
        stats = stats;
        threads = set_thread s.threads i (Phase.raising new);
        highs = new ∷ s.highs;
      })
  adds-Tracked s i new stats free same h =
      let t : State = record {
        stats = stats;
        threads = set_thread s.threads i (Phase.raising new);
        highs = new ∷ s.highs;
      } in
      record {
        covered = (
          inr (i, set_thread_self s.threads i (Phase.raising new)),
          All-map (Covered s) (Covered t) s.highs
              (λ v c. elim c [
                | inl below ↦ inl (omega (arith, below, same))
                | inr (j, busy) ↦ inr (
                  j,
                  elim (set_thread-cases s.threads i (Phase.raising new) j) [
                    | inl (at, set) ↦ absurd (not-idle v (sym busy ∙ ap s.threads at ∙ free))
                    | inr kept ↦ kept ∙ busy
                  ],
                )
              ])
              h.covered,
        );
        attained = elim h.attained [
          | inl none_yet ↦ inl (same ∙ none_yet)
          | inr a ↦ inr (rw same (Among.later a))
        ];
        pending = λ j v busy. elim (set_thread-cases s.threads i (Phase.raising new) j) [
          | inl (at, set) ↦
              subst (λ (x : ℕ). Among x (new ∷ s.highs)) (ap phase_value (sym set ∙ busy))
                Among.first
          | inr kept ↦ Among.later (h.pending j v (sym kept ∙ busy))
        ];
      }

  raises-Tracked :
      (s : State) (i seen value : ℕ)
      → s.threads i ≡ Phase.raising value
      → seen ≤ s.stats.bytes_peak
      → Tracked s
      → Tracked (record {
        stats = record s.stats { bytes_peak = raise seen s.stats.bytes_peak value };
        threads = set_thread s.threads i Phase.idle;
        highs = s.highs;
      })
  raises-Tracked s i seen value busy old h =
      let t : State = record {
        stats = record s.stats { bytes_peak = raise seen s.stats.bytes_peak value };
        threads = set_thread s.threads i Phase.idle;
        highs = s.highs;
      } in
      let (more, enough, which) = raise-cases seen s.stats.bytes_peak value old in
      record {
        covered =
            All-map (Covered s) (Covered t) s.highs
              (λ v c. elim c [
                | inl below ↦ inl (omega (arith, below, more))
                | inr (j, busy') ↦ elim (set_thread-cases s.threads i Phase.idle j) [
                  | inl (at, set) ↦
                      let value_v : value ≡ v =
                        ap phase_value (sym busy ∙ ap s.threads (sym at) ∙ busy') in
                      inl (omega (arith, enough, value_v))
                  | inr kept ↦ inr (j, kept ∙ busy')
                ]
              ])
              h.covered;
        attained = elim which [
          | inl same ↦ rw same h.attained
          | inr new ↦ inr (rw new (h.pending i value busy))
        ];
        pending = λ j v busy'. elim (set_thread-cases s.threads i Phase.idle j) [
          | inl (at, set) ↦ absurd (not-idle v (sym busy' ∙ set))
          | inr kept ↦ h.pending j v (sym kept ∙ busy')
        ];
      }

  Step-Tracked : (s t : State) → Step w s t → Tracked s → Tracked t
  Step-Tracked s t (Step.adds i l free e) h = subst Tracked (sym e) (
      adds-Tracked s i (saturating_add w s.stats.bytes_allocated l.size)
        (record s.stats {
          total_allocations = wrapping_add w s.stats.total_allocations 1;
          bytes_allocated = wrapping_add w s.stats.bytes_allocated l.size;
        })
        free refl h)
  Step-Tracked s t (Step.raises i seen value busy old e) h =
      subst Tracked (sym e) (raises-Tracked s i seen value busy old h)
  Step-Tracked s t (Step.subtracts l e) h =
      subst Tracked (sym e)
        (record { covered = h.covered; attained = h.attained; pending = h.pending })

  Reach-Tracked : {s t : State} → Tracked s → Reach w s t → Tracked t
  Reach-Tracked h Reach.here = h
  Reach-Tracked h (Reach.next {t} {u} path st) = Step-Tracked t u st (Reach-Tracked h path)

  -- For any number of threads and every order of their atomic steps, with reads of the peak that may be
  -- older ones: once no thread is in the middle of an allocation, the peak is the maximum of the sums to
  -- which allocations counted up, where a sum past a word is the largest word, or 0 where there were none.
  pub start-Reach-Maximum :
      (t : State)
      → Reach w start t
      → ((i : ℕ) → t.threads i ≡ Phase.idle)
      → All (λ v. v ≤ t.stats.bytes_peak) t.highs
        × ((t.stats.bytes_peak ≡ 0) ⊎ Among t.stats.bytes_peak t.highs)
  start-Reach-Maximum t path quiet =
      let h : Tracked t =
        Reach-Tracked
          (record {
            covered = tt;
            attained = inl refl;
            pending = λ i v busy. absurd (not-idle v (sym busy));
          })
          path in
      (
        All-map (Covered t) (λ v. v ≤ t.stats.bytes_peak) t.highs
            (λ v c. elim c [
              | inl below ↦ below
              | inr (i, busy) ↦ absurd (not-idle v (sym busy ∙ quiet i))
            ])
            h.covered,
        h.attained,
      )
