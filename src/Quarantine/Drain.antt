-- ===== src/Quarantine/Drain.antt =====
-- What the drop of a quarantine gives back.
use native.Mathlib.Nat.{mod-lt, mod-eq_of_lt}
use forge_alloc.Base.{
  ℕ, zero, suc, ◌+◌, ◌-◌, ◌%◌, ◌≤◌, ◌<◌, ◌≡◌, ◌⊎◌, refl, sym, ap, ◌∙◌, arith, Option, none, some,
  List, [], ◌∷◌, ◌++◌, length, length-append, get_elem?, get_elem?-append, get_elem?-append_length,
  Bool-cases, inl, inr, ltb, split_at, ◌==◌,
}
use forge_alloc.Core.Allocator.{Allocator}
use forge_alloc.Quarantine.{Quarantine, QuarantinedBlock, update, evict, take_at, drain, drop}
use forge_alloc.Quarantine.Ring.{mod-sub, round_mod}
use forge_alloc.Quarantine.Queue.{Delayed}
use forge_alloc.Quarantine.Held.{Holds, update_ne}
use forge_alloc.Quarantine.Collect.{
  with_head, collect, collect-eq, collect-held, collect-none, collect-add,
}
use forge_alloc.Quarantine.Queue.{Event, frees_in, run, run_delayed}
use forge_alloc.Quarantine.Runs.{Steady, new-run-Holds}
use forge_alloc.Quarantine.{new}

append-nil : (bs : List QuarantinedBlock) → bs ++ [] ≡ bs
append-nil [] = refl
append-nil (b ∷ bs) = ap (λ (t : List QuarantinedBlock). b ∷ t) (append-nil bs)

module _ {S : Type 0} (w e n : ℕ) (pos : 1 ≤ e) (q : Quarantine S) (s : S)
    (held : List QuarantinedBlock) (h : Holds w e n q (record { inner = s; held = held })) where
  -- The places of a ring that is not full hold the queue in order.
  short-collect : length held < e → collect e 0 q.ring ≡ held
  short-collect less =
      ap (λ (t : ℕ). collect t 0 q.ring) (parts (length held) less)
      ∙ collect-add (length held) (e - length held) 0 q.ring
      ∙ ap (λ (t : List QuarantinedBlock). t ++ collect (e - length held) (0 + length held) q.ring)
          (collect-held 0 q.ring held (λ k lt.
            ap q.ring (place k (omega (arith, lt)))
            ∙ h.slots k (omega (arith, lt, h.short)) (omega (arith, h.full less))
            ∙ ap (get_elem? held) (index k (h.full less))))
      ∙ ap (λ (t : List QuarantinedBlock). held ++ t)
          (collect-none (e - length held) (0 + length held) q.ring
            (λ k ge lt. h.empty k (omega (arith, ge, h.full less)) (omega (arith, lt, less))))
      ∙ append-nil held
    where
      parts : (m : ℕ) → m < e → e ≡ m + (e - m)
      parts m lt = omega arith

      place : (k : ℕ) → k < e → 0 + k ≡ k % e
      place k lt = omega (arith, mod-eq_of_lt lt)

      index : (k : ℕ) → length held ≡ n → k + length held - n ≡ k
      index k size = omega arith

  -- The places of a full ring hold the newer part of the queue in front of the older.
  module _ (older newer : List QuarantinedBlock) (split : held ≡ older ++ newer)
      (rest : length newer ≡ n % e) (all : length older + length newer ≡ e) (room : e ≤ n) where
    held_size : length held ≡ e
    held_size = ap length split ∙ length-append older newer ∙ all

    newer_place : (j : ℕ) → j < length newer → q.ring j ≡ get_elem? newer j
    newer_place j lt =
        ap q.ring (sym (round_mod n e j (omega (arith, rest, mod-lt n pos))))
        ∙ h.slots (n - n % e + j) (omega (arith, rest, mod-lt n pos))
            (omega (arith, rest, mod-lt n pos, held_size))
        ∙ ap (λ (t : List QuarantinedBlock). get_elem? t (n - n % e + j + length held - n)) split
        ∙ ap (get_elem? (older ++ newer)) (omega (arith, rest, all, room, held_size, mod-lt n pos))
        ∙ get_elem?-append_length older newer j

    older_place : (j : ℕ) → j < length older → q.ring (length newer + j) ≡ get_elem? older j
    older_place j lt =
        ap q.ring (
          sym (round_mod n e (length newer + j) (omega (arith, all)))
          ∙ ap (λ (t : ℕ). t % e) (omega (arith, rest, mod-lt n pos, room))
          ∙ sym (mod-sub e (n + j) (omega (arith, room))))
        ∙ h.slots (n + j - e) (omega (arith, all)) (omega (arith, held_size, room))
        ∙ ap (λ (t : List QuarantinedBlock). get_elem? t (n + j - e + length held - n)) split
        ∙ ap (get_elem? (older ++ newer)) (omega (arith, room, held_size))
        ∙ get_elem?-append older newer j lt

    full-collect : collect e 0 q.ring ≡ newer ++ older
    full-collect =
        ap (λ (t : ℕ). collect t 0 q.ring) (omega (arith, length-append newer older, all))
        ∙ collect-held 0 q.ring (newer ++ older) (λ k lt. elim (Bool-cases (ltb k (length newer))) [
          | inl new_one ↦
              let small : k < length newer = ground (arith, new_one) in
              ap q.ring (omega arith)
              ∙ newer_place k small
              ∙ sym (get_elem?-append newer older k small)
          | inr old_one ↦
              let large : length newer ≤ k = ground (arith, old_one) in
              ap q.ring (omega arith)
              ∙ older_place (k - length newer) (omega (arith, lt, length-append newer older))
              ∙ sym (get_elem?-append_length newer older (k - length newer))
              ∙ ap (get_elem? (newer ++ older)) (omega arith)
        ])

  drain_order :
      (older : List QuarantinedBlock) × (newer : List QuarantinedBlock) × (held ≡ older ++ newer)
      × (collect e 0 q.ring ≡ newer ++ older)
  drain_order = elim (Bool-cases (ltb (length held) e)) [
    | inl less ↦ (held, [], sym (append-nil held), short-collect (ground (arith, less)))
    | inr at_end ↦
        let size : length held ≡ e = ground (arith, at_end, h.fits) in
        let room : e ≤ n = omega (arith, size, h.short) in
        let (older, newer, split, older_size) = split_at held (e - n % e) (omega (arith, size)) in
        let all : length older + length newer ≡ e =
          sym (length-append older newer) ∙ ap length (sym split) ∙ size in
        (
          older,
          newer,
          split,
          full-collect older newer split (omega (arith, all, older_size, mod-lt n pos)) all room,
        )
  ]

module _ {S : Type 0} (al : Allocator S) where
  -- Blocks that are given back one after the other.
  abbrev pub give_back : S → List QuarantinedBlock → S
  give_back s [] = s
  give_back s (b ∷ bs) = give_back (al.deallocate s b.ptr b.layout) bs

  give_back-with_head :
      (s : S) (o : Option QuarantinedBlock) (bs : List QuarantinedBlock)
      → give_back (evict al s o) bs ≡ give_back s (with_head o bs)
  unfolding evict
  give_back-with_head s none bs = refl
  give_back-with_head s (some b) bs = refl

  drain-collect :
      (n i : ℕ) (q : Quarantine S) → (drain al n i q).inner ≡ give_back q.inner (collect n i q.ring)
  unfolding drain take_at collect
  drain-collect zero i q = refl
  drain-collect (suc n) i q =
      drain-collect n (suc i) (take_at al q i)
      ∙ ap (give_back (evict al q.inner (q.ring i))) (
          collect-eq n (suc i) (update q.ring i none) q.ring
            (λ k ge lt. update_ne q.ring k i none (λ same. absurd (omega (arith, same, ge)))))
      ∙ give_back-with_head q.inner (q.ring i) (collect n (suc i) q.ring)

  drain_clears :
      (n i k : ℕ) (q : Quarantine S)
      → k < i + n
      → (i ≤ k) ⊎ (q.ring k ≡ none)
      → (drain al n i q).ring k ≡ none
  unfolding drain take_at
  drain_clears zero i k q lt (inl ge) = absurd (omega (arith, ge, lt))
  drain_clears zero i k q lt (inr e) = e
  drain_clears (suc n) i k q lt h = drain_clears n (suc i) k (take_at al q i) (omega arith) (rest h)
    where
      rest : (i ≤ k) ⊎ (q.ring k ≡ none) → (suc i ≤ k) ⊎ (update q.ring i none k ≡ none)
      rest from = elim (Bool-cases (k == i)) [
        | inl here ↦ inr (ground (arith, here))
        | inr other ↦ elim from [
          | inl ge ↦ inl (ground (arith, other, ge))
          | inr e ↦ inr (ground (arith, other, e))
        ]
      ]

  drop-Holds :
      (w e n : ℕ) (q : Quarantine S) (d : Delayed S)
      → 1 ≤ e
      → Holds w e n q d
      → ((older : List QuarantinedBlock) × (newer : List QuarantinedBlock) × (d.held
            ≡ older ++ newer)
          × ((drop al e q).inner ≡ give_back d.inner (newer ++ older)))
        × ((i : ℕ) → i < e → (drop al e q).ring i ≡ none)
  unfolding drop
  drop-Holds w e n q d pos h = (
    let (older, newer, split, order) = drain_order w e n pos q d.inner d.held h in
        (
          older,
          newer,
          split,
          drain-collect e 0 q
              ∙ ap (give_back q.inner) order
              ∙ ap (λ (t : S). give_back t (newer ++ older)) h.inner,
        ),
    λ i lt. drain_clears e 0 i q (omega (arith, lt)) (inl (omega arith)),
  )

  -- After every run of allocations and frees from a new quarantine of at least one place, where the
  -- counter does not wrap or the number of places divides its range: the drop gives every block that
  -- waits back to the inner allocator exactly once, the newer ones first and each part in the order of
  -- the frees, and leaves every place empty.
  pub drop-run :
      (w e : ℕ) (s : S) (es : List Event)
      → 1 ≤ e
      → Steady w e (frees_in es)
      → let q = (run al w e (new s) es).0 in
        let d = (run_delayed al e (record { inner = s; held = [] }) es).0 in
        ((older : List QuarantinedBlock) × (newer : List QuarantinedBlock) × (d.held
            ≡ older ++ newer)
          × ((drop al e q).inner ≡ give_back d.inner (newer ++ older)))
        × ((i : ℕ) → i < e → (drop al e q).ring i ≡ none)
  drop-run w e s es pos ok =
      drop-Holds w e (frees_in es) (run al w e (new s) es).0
        (run_delayed al e (record { inner = s; held = [] }) es).0 pos
        (new-run-Holds al w e pos s es ok)
