-- ===== src/Statistics/Live.antt =====
-- The counters of a wrapper over any run of its calls.
use native.Mathlib.Nat.{mod-add-mod, mod-eq_of_lt}
use forge_alloc.Base.{
  ℕ, ◌+◌, ◌%◌, ◌^◌, ◌<◌, ◌≡◌, refl, sym, ap, ◌∙◌, arith, inl, inr, none, some, Option-cases, List,
  [], ◌∷◌, ◌++◌, length, length-append,
}
use forge_alloc.Word.Defs.{wrapping_add, wrapping_sub}
use forge_alloc.Word.Bits.{two-pow-pos}
use forge_alloc.Word.Wrap.{wrapping_add_lt, wrapping_sub_le}
use forge_alloc.Core.Layout.{NonZeroLayout}
use forge_alloc.Core.Range.{Block}
use forge_alloc.Core.Allocator.{Allocator}
use forge_alloc.Statistics.{Statistics, Reads, new, allocate, deallocate}

-- The bytes of a list of layouts.
unfoldable pub total : List NonZeroLayout → ℕ
total [] = 0
total (l ∷ ls) = l.size + total ls

total-middle :
    (before : List NonZeroLayout) (l : NonZeroLayout) (after : List NonZeroLayout)
    → total (before ++ l ∷ after) ≡ l.size + total (before ++ after)
unfolding total
total-middle [] l after = refl
total-middle (x ∷ before) l after = omega (arith, total-middle before l after)

-- The layouts of the blocks that are not freed, and how many calls have failed and how many have freed.
pub record State (S : Type 0) : Type 0 where
  pub wrapper : Statistics S
  pub live : List NonZeroLayout
  pub failed : ℕ
  pub freed : ℕ

module _ (w : ℕ) {S : Type 0} (al : Allocator S) (corruption : S → ℕ) where
  pub data Step (s t : State S) : Type 0 where
    serves :
        (seen : Reads) (l : NonZeroLayout) (b : Block)
        → allocate w al corruption s.wrapper seen l ≡ (t.wrapper, some b)
        → total (l ∷ s.live) < 2 ^ w
        → t.live ≡ l ∷ s.live
        → t.failed ≡ s.failed
        → t.freed ≡ s.freed
        → Step s t
    refuses :
        (seen : Reads) (l : NonZeroLayout)
        → allocate w al corruption s.wrapper seen l ≡ (t.wrapper, none)
        → t.live ≡ s.live
        → t.failed ≡ s.failed + 1
        → t.freed ≡ s.freed
        → Step s t
    frees :
        (seen : Reads) (ptr : ℕ) (before : List NonZeroLayout) (l : NonZeroLayout)
        (after : List NonZeroLayout)
        → t.wrapper ≡ deallocate w al corruption s.wrapper seen ptr l
        → s.live ≡ before ++ l ∷ after
        → t.live ≡ before ++ after
        → t.failed ≡ s.failed
        → t.freed ≡ s.freed + 1
        → Step s t

  pub data Reach (s : State S) : State S → Type 0 where
    here : Reach s s
    next : {t u : State S} → Reach s t → Step t u → Reach s u

  pub record Counts (s : State S) : Type 0 where
    pub word : total s.live < 2 ^ w
    pub bytes : s.wrapper.stats.bytes_allocated ≡ total s.live
    pub allocations : s.wrapper.stats.total_allocations ≡ (length s.live + s.freed) % 2 ^ w
    pub deallocations : s.wrapper.stats.total_deallocations ≡ s.freed % 2 ^ w
    pub failures : s.wrapper.stats.failures ≡ s.failed % 2 ^ w

  -- A counter that wraps counts modulo the width.
  bump : (x n : ℕ) → x ≡ n % 2 ^ w → wrapping_add w x 1 ≡ (n + 1) % 2 ^ w
  bump x n e = ap (λ (t : ℕ). wrapping_add w t 1) e ∙ mod-add-mod n (2 ^ w) 1

  served-stats :
      (t t' : Statistics S) (seen : Reads) (l : NonZeroLayout) (b : Block)
      → allocate w al corruption t seen l ≡ (t', some b)
      → (t'.stats.bytes_allocated ≡ wrapping_add w t.stats.bytes_allocated l.size)
        × (t'.stats.total_allocations ≡ wrapping_add w t.stats.total_allocations 1)
        × (t'.stats.total_deallocations ≡ t.stats.total_deallocations)
        × (t'.stats.failures ≡ t.stats.failures)
  unfolding allocate
  served-stats t t' seen l b e = elim (Option-cases (al.allocate t.inner l).1) [
    | inl full ↦ absurd (ground (arith, e, full))
    | inr (b', got) ↦ (
      ground (arith, e, got),
      ground (arith, e, got),
      ground (arith, e, got),
      ground (arith, e, got),
    )
  ]

  refused-stats :
      (t t' : Statistics S) (seen : Reads) (l : NonZeroLayout)
      → allocate w al corruption t seen l ≡ (t', none)
      → (t'.stats.bytes_allocated ≡ t.stats.bytes_allocated)
        × (t'.stats.total_allocations ≡ t.stats.total_allocations)
        × (t'.stats.total_deallocations ≡ t.stats.total_deallocations)
        × (t'.stats.failures ≡ wrapping_add w t.stats.failures 1)
  unfolding allocate
  refused-stats t t' seen l e = elim (Option-cases (al.allocate t.inner l).1) [
    | inl full ↦ (
      ground (arith, e, full),
      ground (arith, e, full),
      ground (arith, e, full),
      ground (arith, e, full),
    )
    | inr (b', got) ↦ absurd (ground (arith, e, got))
  ]

  Step-Counts : (s t : State S) → Step s t → Counts s → Counts t
  unfolding deallocate total
  Step-Counts s t (Step.serves seen l b e small live failed freed) h =
      let (bytes, allocations, deallocations, failures) =
        served-stats s.wrapper t.wrapper seen l b e in
      record {
        word = rw live small;
        bytes = rw live (
            bytes
            ∙ ap (λ (x : ℕ). wrapping_add w x l.size) h.bytes
            ∙ wrapping_add_lt w (total s.live) l.size (omega (arith, small))
            ∙ omega arith);
        allocations =
            rw (live, freed)
              (allocations
                ∙ bump s.wrapper.stats.total_allocations (length s.live + s.freed) h.allocations
                ∙ ap (λ (x : ℕ). x % 2 ^ w) (omega arith));
        deallocations = rw freed (deallocations ∙ h.deallocations);
        failures = rw failed (failures ∙ h.failures);
      }
  Step-Counts s t (Step.refuses seen l e live failed freed) h =
      let (bytes, allocations, deallocations, failures) =
        refused-stats s.wrapper t.wrapper seen l e in
      record {
        word = rw live h.word;
        bytes = rw live (bytes ∙ h.bytes);
        allocations = rw (live, freed) (allocations ∙ h.allocations);
        deallocations = rw freed (deallocations ∙ h.deallocations);
        failures = rw failed (failures ∙ bump s.wrapper.stats.failures s.failed h.failures);
      }
  Step-Counts s t (Step.frees seen ptr before l after e was live failed freed) h =
      let parts : total s.live ≡ l.size + total (before ++ after) =
        ap total was ∙ total-middle before l after in
      let sizes : length s.live ≡ length (before ++ after) + 1 =
        ap length was
        ∙ omega (arith, length-append before (l ∷ after), length-append before after) in
      record {
        word = rw live (omega (arith, h.word, parts));
        bytes =
            rw (live, e)
              (ap (λ (x : ℕ). wrapping_sub w x l.size) h.bytes
                ∙ wrapping_sub_le w (total s.live) l.size (omega (arith, parts)) h.word
                ∙ omega (arith, parts));
        allocations =
            rw (live, freed, e) (h.allocations ∙ ap (λ (x : ℕ). x % 2 ^ w) (omega (arith, sizes)));
        deallocations =
            rw (freed, e) (bump s.wrapper.stats.total_deallocations s.freed h.deallocations);
        failures = rw (failed, e) h.failures;
      }

  Reach-Counts : {s t : State S} → Counts s → Reach s t → Counts t
  Reach-Counts h here = h
  Reach-Counts h (next {t} {u} path st) = Step-Counts t u st (Reach-Counts h path)

  -- A new wrapper, before any call.
  abbrev pub start : S → State S
  start inner = record { wrapper = new inner; live = []; failed = 0; freed = 0 }

  -- After every run of allocations that succeed or fail and of frees, whatever the relaxed reads see, where
  -- the bytes of the blocks that are not freed always fit a word: the byte count is the bytes of those
  -- blocks, and the other counters count, modulo the width, the calls that served, freed and failed.
  pub start-Reach-Counts : (inner : S) (t : State S) → Reach (start inner) t → Counts t
  unfolding new total
  start-Reach-Counts inner t path =
      let nothing : 0 ≡ 0 % 2 ^ w = sym (mod-eq_of_lt (two-pow-pos w)) in
      Reach-Counts
        (record {
          word = two-pow-pos w;
          bytes = refl;
          allocations = nothing;
          deallocations = nothing;
          failures = nothing;
        })
        path
