-- ===== src/SharedBump/Loop.antt =====
-- The loop of one call among other threads: it ends, with the answer of the unshared arena at a cursor
-- that it has read.
use forge_alloc.Base.{
  ℕ, ◌+◌, ◌-◌, ◌≤◌, ◌<◌, ◌≡◌, ap, ◌∙◌, inl, inr, arith, Bool, true, false, Option, none, some,
  Option-cases, Bool-cases, List, [], ◌∷◌, length,
}
use forge_alloc.Word.Align.{IsAlign}
use forge_alloc.Core.Layout.{NonZeroLayout}
use forge_alloc.Core.Range.{Block}
use forge_alloc.Cursor.{place}
use forge_alloc.SharedBump.{Turn, offsets, exchanges, attempt, allocate}
use forge_alloc.SharedBump.Place.{offsets-place}

-- The cursor that the turns see never falls and stays within the capacity.
abbrev pub Rising : ℕ → ℕ → List Turn → Type 0
Rising capacity c [] = Unit {0}
Rising capacity c (t ∷ ts) = (c ≤ t.seen) × (t.seen ≤ capacity) × Rising capacity t.seen ts

abbrev pub one_if : Bool → ℕ
one_if true = 1
one_if false = 0

-- How many exchanges fail for no reason.
abbrev pub spurious_in : List Turn → ℕ
spurious_in [] = 0
spurious_in (t ∷ ts) = one_if t.spurious + spurious_in ts

-- What a call answers for the offsets that it has found.
abbrev pub answer : ℕ → NonZeroLayout → Option (ℕ × ℕ) → Option Block
answer base l none = none
answer base l (some (off, end)) = some (record { address = base + off; length = l.size })

-- A round that does not end sees a cursor that has moved, or fails for no reason.
moved :
    (cur : ℕ) (t : Turn) → exchanges cur t ≡ false → cur ≤ t.seen → cur < t.seen + one_if t.spurious
moved cur t fails le = ground (arith, fails, le)

module _ (w base capacity : ℕ) (l : NonZeroLayout) where
  -- The call ends with the answer of the unshared arena at the cursor `c`.
  pub record Ends (cur : ℕ) (ts : List Turn) (c : ℕ) : Type 0 where
    pub from : cur ≤ c
    pub within : c ≤ capacity
    pub answers :
        allocate w base capacity l cur ts ≡ some (answer base l (place w base c capacity l))

module _ (w base capacity : ℕ) (l : NonZeroLayout) (al : IsAlign w l.align) where
  -- A round that ends a call answers it.
  Ends-now :
      (cur : ℕ) (t : Turn) (ts : List Turn)
      → cur ≤ capacity
      → allocate w base capacity l cur (t ∷ ts)
        ≡ some (answer base l (offsets w base cur capacity l))
      → Ends w base capacity l cur (t ∷ ts) cur
  Ends-now cur t ts le e = record {
    from = omega arith;
    within = le;
    answers =
        e
        ∙ ap (λ (o : Option (ℕ × ℕ)). some (answer base l o))
            (offsets-place w base cur capacity l al);
  }

  -- A call among any other threads, whose cursor rises within the capacity, ends within as many rounds as
  -- there are bytes behind the cursor that it read first, one more, and one for each exchange that fails
  -- for no reason; its answer is that of the unshared arena at a cursor between the one that it
  -- read first and the capacity.
  pub allocate-Ends :
      (cur : ℕ) (ts : List Turn)
      → cur ≤ capacity
      → Rising capacity cur ts
      → capacity - cur + spurious_in ts < length ts
      → (c : ℕ) × Ends w base capacity l cur ts c
  unfolding allocate attempt
  allocate-Ends cur [] le rising enough = absurd (omega (arith, enough))
  allocate-Ends cur (t ∷ ts) le rising enough =
      elim (Option-cases (offsets w base cur capacity l)) [
        | inl full ↦ (cur, Ends-now cur t ts le (ground (arith, full)))
        | inr ((off, end), at) ↦ elim (Bool-cases (exchanges cur t)) [
          | inl wins ↦ (cur, Ends-now cur t ts le (ground (arith, at, wins)))
          | inr fails ↦
              let later : cur < t.seen + one_if t.spurious = moved cur t fails rising.0 in
              let (c, ends) =
                allocate-Ends t.seen ts rising.1 rising.2
                  (omega (arith, later, enough, rising.1)) in
              (
                c,
                record {
                  from = omega (arith, ends.from, rising.0);
                  within = ends.within;
                  answers = ground (arith, at, fails) ∙ ends.answers;
                },
              )
        ]
      ]
