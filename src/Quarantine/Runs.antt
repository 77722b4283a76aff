-- ===== src/Quarantine/Runs.antt =====
-- Whole runs of a quarantine against the queue, and what happens where the counter wraps.
use native.Mathlib.Nat.{mod-lt, mod_self, zero-mod}
use forge_alloc.Base.{
  ℕ, suc, ◌+◌, ◌-◌, ◌%◌, ◌^◌, ◌≤◌, ◌<◌, ◌≡◌, ◌⊎◌, refl, sym, ap, subst, ◌∙◌, inl, inr, arith,
  Option, Bool-cases, ltb, length, List, [], ◌∷◌, get_elem?,
}
use forge_alloc.Core.Range.{Block}
use forge_alloc.Core.Allocator.{Allocator}
use forge_alloc.Quarantine.{Quarantine, QuarantinedBlock, new, allocate, deallocate, evict}
use forge_alloc.Quarantine.Ring.{counter_mod, round_mod}
use forge_alloc.Quarantine.Queue.{Event, frees_in, Delayed, delay, run, run_delayed}
use forge_alloc.Quarantine.Held.{Holds, new-Holds, delay-Holds}

-- No free of the `n` wraps the counter, or a wrap keeps the place.
abbrev pub Steady : ℕ → ℕ → ℕ → Type 0
Steady w e n = (n ≤ 2 ^ w) ⊎ (2 ^ w % e ≡ 0)

module _ {S : Type 0} (al : Allocator S) (w e : ℕ) (pos : 1 ≤ e) where
  Steady-place :
      (n m : ℕ) (q : Quarantine S) (d : Delayed S)
      → Steady w e (n + suc m)
      → Holds w e n q d
      → q.count % e ≡ n % e
  Steady-place n m q d (inl le) h =
      ap (λ (t : ℕ). t % e) h.count ∙ counter_mod w e n (inl (omega arith))
  Steady-place n m q d (inr divides) h =
      ap (λ (t : ℕ). t % e) h.count ∙ counter_mod w e n (inr divides)

  -- The code and the specification after the same run, and their answers.
  Agree : ℕ → Quarantine S → Delayed S → List Event → Type 0
  Agree n q d es =
      Holds w e (n + frees_in es) (run al w e q es).0 (run_delayed al e d es).0
      × ((run al w e q es).1 ≡ (run_delayed al e d es).1)

  run-Holds :
      (n : ℕ) (q : Quarantine S) (d : Delayed S) (es : List Event)
      → Steady w e (n + frees_in es)
      → Holds w e n q d
      → Agree n q d es
  unfolding Agree run run_delayed allocate
  run-Holds n q d [] ok h = (subst (λ (t : ℕ). Holds w e t q d) (omega arith) h, refl)
  run-Holds n q d (Event.allocates l ∷ es) ok h =
      let same : Agree n q (record { inner = q.inner; held = d.held }) (Event.allocates l ∷ es) =
        let (later, answers) =
          run-Holds n (record q { inner = (al.allocate q.inner l).0 })
            (record { inner = (al.allocate q.inner l).0; held = d.held }) es ok
            (record {
              inner = refl;
              short = h.short;
              fits = h.fits;
              full = h.full;
              slots = h.slots;
              empty = h.empty;
              count = h.count;
            }) in
        (later, ap (λ (t : List (Option Block)). (al.allocate q.inner l).1 ∷ t) answers) in
      subst (λ (x : S). Agree n q (record { inner = x; held = d.held }) (Event.allocates l ∷ es))
        h.inner same
  run-Holds n q d (Event.frees b ∷ es) ok h =
      subst
        (λ (t : ℕ).
          Holds w e t (run al w e (deallocate al w e q b.ptr b.layout) es).0
            (run_delayed al e (delay al e d b) es).0
          × ((run al w e (deallocate al w e q b.ptr b.layout) es).1
              ≡ (run_delayed al e (delay al e d b) es).1))
        (omega arith)
        (run-Holds (suc n) (deallocate al w e q b.ptr b.layout) (delay al e d b) es
          (subst (Steady w e) (omega arith) ok)
          (delay-Holds al w e pos n q d.inner d.held b (Steady-place n (frees_in es) q d ok h) h))

  pub new-run-Holds :
      (s : S) (es : List Event)
      → Steady w e (frees_in es)
      → Holds w e
          (frees_in es)
          (run al w e (new s) es).0
          (run_delayed al e (record { inner = s; held = [] }) es).0
  unfolding Agree
  new-run-Holds s es ok =
      let (held, answers) =
        run-Holds 0 (new s) (record { inner = s; held = [] }) es
          (subst (Steady w e) (omega arith) ok) (new-Holds w e s) in
      subst
        (λ (t : ℕ).
          Holds w e t (run al w e (new s) es).0
            (run_delayed al e (record { inner = s; held = [] }) es).0)
        (omega arith) held

  -- Over every run of allocations and frees from a new quarantine of at least one place, where the
  -- counter does not wrap or the number of places divides its range: the inner allocator has been
  -- called as by a queue that returns its oldest block when a free makes it longer than the ring,
  -- and every allocation gets the answer that it gets there.
  pub run_delays :
      (s : S) (es : List Event)
      → Steady w e (frees_in es)
      → ((run al w e (new s) es).0.inner
          ≡ (run_delayed al e (record { inner = s; held = [] }) es).0.inner)
        × ((run al w e (new s) es).1 ≡ (run_delayed al e (record { inner = s; held = [] }) es).1)
  unfolding Agree
  run_delays s es ok =
      let (held, answers) =
        run-Holds 0 (new s) (record { inner = s; held = [] }) es
          (subst (Steady w e) (omega arith) ok) (new-Holds w e s) in
      (held.inner, answers)

  -- For a ring of `e` places, at least one and at most the range of the counter, where `e` does not
  -- divide that range but leaves the remainder `c`: when a run from a new quarantine has freed exactly
  -- as often as the range has values, the next free gives the inner allocator back the block at index
  -- `e - c` of the queue of waiting blocks, whose oldest block stands at index 0.
  pub wrap_evicts_early :
      (s : S) (es : List Event) (b : QuarantinedBlock)
      → frees_in es ≡ 2 ^ w
      → 1 ≤ 2 ^ w % e
      → e ≤ 2 ^ w
      → let q = (run al w e (new s) es).0 in
        let d = (run_delayed al e (record { inner = s; held = [] }) es).0 in
        (deallocate al w e q b.ptr b.layout).inner
        ≡ evict al d.inner (get_elem? d.held (e - 2 ^ w % e))
  unfolding deallocate
  wrap_evicts_early s es b all rest le =
      let q : Quarantine S = (run al w e (new s) es).0 in
      let d : Delayed S = (run_delayed al e (record { inner = s; held = [] }) es).0 in
      let h : Holds w e (frees_in es) q d = new-run-Holds s es (inl (omega (arith, all))) in
      let c : ℕ = 2 ^ w % e in
      let small : c < e = mod-lt (2 ^ w) pos in
      let size : length d.held ≡ e =
        filled (length d.held) h.fits h.full (omega (arith, all, le)) in
      let front : q.count % e ≡ (2 ^ w - c) % e =
        ap (λ (t : ℕ). t % e) (h.count ∙ ap (λ (t : ℕ). t % 2 ^ w) all ∙ mod_self (2 ^ w))
        ∙ zero-mod e
        ∙ sym (ap (λ (t : ℕ). t % e) (omega arith) ∙ round_mod (2 ^ w) e 0 pos) in
      let held_there : q.ring (q.count % e) ≡ get_elem? d.held (e - c) =
        ap q.ring front
        ∙ h.slots (2 ^ w - c) (omega (arith, all, rest, le, small))
            (omega (arith, all, size, small, le))
        ∙ ap (get_elem? d.held) (omega (arith, all, size, small, le)) in
      ap (evict al q.inner) held_there
      ∙ ap (λ (x : S). evict al x (get_elem? d.held (e - c))) h.inner
    where
      filled : (n : ℕ) → n ≤ e → (n < e → n ≡ frees_in es) → e ≤ frees_in es → n ≡ e
      filled n fits full many = elim (Bool-cases (ltb n e)) [
        | inl less ↦ absurd (ground (arith, less, full (ground (arith, less)), many))
        | inr not_less ↦ ground (arith, not_less, fits)
      ]
