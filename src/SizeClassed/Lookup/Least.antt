-- ===== src/SizeClassed/Lookup/Least.antt =====
-- What the two passes leave in the table: for each bit the least class that is large enough.
use native.Mathlib.Nat.{mod-eq_of_lt}
use forge_alloc.Base.{
  ℕ, zero, suc, ◌≤◌, ◌<◌, ◌≡◌, ◌≢◌, ◌⊎◌, refl, sym, ap, subst, ◌∙◌, inl, inr, arith, true, false,
  Bool-cases, ltb, ◌==◌, ==_iff,
}
use forge_alloc.Word.Defs.{trailing_zeros}
use forge_alloc.SizeClassed.Lookup.{
  Table, class_lookup_none, set_entry, mark_one, mark, fill_gaps, build_lookup,
}

entry_ne : (t : Table) (k v j : ℕ) → j ≢ k → set_entry t k v j ≡ t j
entry_ne t k v j other = ground (arith, ==_iff j k, other)

entry_eq : (t : Table) (k v j : ℕ) → j ≡ k → set_entry t k v j ≡ v
entry_eq t k v j same = ground (arith, ==_iff j k, same)

-- A round of the second pass, at an empty entry and at another.
fills :
    (k next : ℕ) (t : Table)
    → (t k == class_lookup_none) ≡ true
    → fill_gaps (suc k) next t ≡ fill_gaps k next (set_entry t k next)
unfolding fill_gaps
fills k next t free = ground (arith, free)

keeps :
    (k next : ℕ) (t : Table)
    → (t k == class_lookup_none) ≡ false
    → fill_gaps (suc k) next t ≡ fill_gaps k (t k) t
unfolding fill_gaps
keeps k next t taken = ground (arith, taken)

module _ (w : ℕ) (class_sizes : ℕ → ℕ) where
  abbrev pub bit_of : ℕ → ℕ
  bit_of i = trailing_zeros w (class_sizes i)

  -- The bits of the classes rise, and the classes have names of eight bits that are not the sentinel.
  pub record Rising (classes : ℕ) : Type 0 where
    pub few : classes ≤ 255
    pub rise : (i j : ℕ) → i < j → j < classes → bit_of i < bit_of j

  -- After the first pass: no class has its bit at `k`, or the entry is the one that has.
  abbrev pub Entry : ℕ → ℕ → ℕ → Type 0
  Entry n k v =
      ((v ≡ class_lookup_none) × ((i : ℕ) → i < n → bit_of i ≢ k)) ⊎ ((v < n) × (bit_of v ≡ k))

  -- The least class of those below bit 32 whose bit is at `k` or above.
  abbrev pub Least : ℕ → ℕ → ℕ → Type 0
  Least classes k v =
      ((v ≡ class_lookup_none) × ((i : ℕ) → i < classes → bit_of i < 32 → bit_of i < k))
      ⊎ ((v < classes) × (k ≤ bit_of v) × (bit_of v < 32) × ((j : ℕ) → j < v → bit_of j < k))

  module _ (classes : ℕ) (h : Rising classes) where
    marked_here :
        (n : ℕ) (t : Table)
        → n < classes
        → bit_of n < 32
        → Entry n (bit_of n) (t (bit_of n))
        → mark_one t (bit_of n) n (bit_of n) ≡ n
    unfolding mark_one
    marked_here n t lt low (inl (free, other)) =
        ground (arith, free, low, mod-eq_of_lt {n = n} {m = 256} (omega (arith, h.few)))
    marked_here n t lt low (inr (used, same)) =
        absurd (omega (arith, h.rise (t (bit_of n)) n used lt, same))

    marked_other : (t : Table) (bit i k : ℕ) → k ≢ bit → mark_one t bit i k ≡ t k
    unfolding mark_one
    marked_other t bit i k other = ground (arith, ==_iff k bit, other)

    -- An entry that round `n` leaves alone.
    Entry-suc : (n k v : ℕ) → bit_of n ≢ k → Entry n k v → Entry (suc n) k v
    Entry-suc n k v other (inl (free, none_before)) = inl (
      free,
      λ i lt. elim (Bool-cases (ltb i n)) [
        | inl before ↦ none_before i (ground (arith, before))
        | inr last ↦ λ same. other (ap bit_of (ground (arith, last, lt)) ∙ same)
      ],
    )
    Entry-suc n k v other (inr (used, same)) = inr (omega (arith, used), same)

    pub mark-Entry : (n k : ℕ) → n ≤ classes → k < 32 → Entry n k (mark w class_sizes n k)
    unfolding mark
    mark-Entry zero k le low = inl (refl, λ i lt. absurd (omega (arith, lt)))
    mark-Entry (suc n) k le low = elim (Bool-cases (k == bit_of n)) [
      | inl here ↦
          let same : bit_of n ≡ k = sym ((==_iff k (bit_of n)).0 here) in
          let written : mark_one (mark w class_sizes n) (bit_of n) n (bit_of n) ≡ n =
            marked_here n (mark w class_sizes n) (omega (arith, le)) (omega (arith, same, low))
              (mark-Entry n (bit_of n) (omega (arith, le)) (omega (arith, same, low))) in
          subst (λ (t : ℕ). Entry (suc n) t (mark_one (mark w class_sizes n) (bit_of n) n t)) same
            (inr (omega (arith, written), ap bit_of written))
      | inr other ↦
          let apart : k ≢ bit_of n = λ same. ground (arith, other, (==_iff k (bit_of n)).1 same) in
          subst (Entry (suc n) k) (sym (marked_other (mark w class_sizes n) (bit_of n) n k apart)) (
            Entry-suc n k (mark w class_sizes n k) (λ same. apart (sym same))
              (mark-Entry n k (omega (arith, le)) low))
    ]

    -- Down one bit that no class has.
    Least-down :
        (k v : ℕ)
        → ((i : ℕ) → i < classes → bit_of i ≢ k)
        → Least classes (suc k) v
        → Least classes k v
    Least-down k v none_here (inl (free, below)) =
        inl (free, λ i lt low. omega (arith, below i lt low, none_here i lt))
    Least-down k v none_here (inr (used, above, low, before)) = inr (
      used,
      omega (arith, above),
      low,
      λ j lt. omega (arith, before j lt, none_here j (omega (arith, lt, used))),
    )

    Least-here : (k v : ℕ) → k < 32 → v < classes → bit_of v ≡ k → Least classes k v
    Least-here k v low used same = inr (
      used,
      omega (arith, same),
      omega (arith, same, low),
      λ j lt. omega (arith, h.rise j v lt used, same),
    )

    gap :
        (k v : ℕ) → v ≡ class_lookup_none → Entry classes k v → (i : ℕ) → i < classes → bit_of i ≢ k
    gap k v free (inl (_, none_here)) = none_here
    gap k v free (inr (used, same)) = absurd (omega (arith, free, used, h.few))

    there :
        (k v : ℕ)
        → k < 32
        → (v == class_lookup_none) ≡ false
        → Entry classes k v
        → Least classes k v
    there k v low taken (inl (free, none_here)) = absurd (ground (arith, taken, free))
    there k v low taken (inr (used, same)) = Least-here k v low used same

    fill_gaps-Least :
        (k next : ℕ) (t : Table)
        → k ≤ 32
        → Least classes k next
        → ((j : ℕ) → j < k → Entry classes j (t j))
        → ((j : ℕ) → k ≤ j → j < 32 → Least classes j (t j))
        → (j : ℕ) → j < 32
        → Least classes j (fill_gaps k next t j)
    unfolding fill_gaps
    fill_gaps-Least zero next t le least marked done j lt = done j (omega arith) lt
    fill_gaps-Least (suc k) next t le least marked done j lt =
        elim (Bool-cases (t k == class_lookup_none)) [
          | inl free ↦
              let e : t k ≡ class_lookup_none = (==_iff (t k) class_lookup_none).0 free in
              let least' : Least classes k next =
                Least-down k next (gap k (t k) e (marked k (omega arith))) least in
              subst (λ (u : Table). Least classes j (u j)) (sym (fills k next t free))
                (fill_gaps-Least k next (set_entry t k next) (omega (arith, le)) least'
                  (λ i below.
                    subst (Entry classes i) (sym (entry_ne t k next i (omega (arith, below))))
                      (marked i (omega (arith, below))))
                  (λ i ge low. elim (Bool-cases (i == k)) [
                    | inl here ↦
                        let same : i ≡ k = (==_iff i k).0 here in
                        subst (Least classes i) (sym (entry_eq t k next i same))
                          (subst (λ (x : ℕ). Least classes x next) (sym same) least')
                    | inr other ↦
                        let above : suc k ≤ i = ground (arith, other, ge) in
                        subst (Least classes i) (sym (entry_ne t k next i (omega (arith, above))))
                          (done i above low)
                  ])
                  j lt)
          | inr taken ↦
              let here : Least classes k (t k) =
                there k (t k) (omega (arith, le)) taken (marked k (omega arith)) in
              subst (λ (u : Table). Least classes j (u j)) (sym (keeps k next t taken))
                (fill_gaps-Least k (t k) t (omega (arith, le)) here
                  (λ i below. marked i (omega (arith, below)))
                  (λ i ge low. elim (Bool-cases (i == k)) [
                    | inl at ↦
                        subst (λ (x : ℕ). Least classes x (t x)) (sym ((==_iff i k).0 at)) here
                    | inr other ↦ done i (ground (arith, other, ge)) low
                  ])
                  j lt)
        ]

    pub build_lookup-Least :
        (k : ℕ) → k < 32 → Least classes k (build_lookup w class_sizes classes k)
    unfolding build_lookup
    build_lookup-Least =
        fill_gaps-Least 32 class_lookup_none (mark w class_sizes classes) (omega arith)
          (inl (refl, λ i lt low. low)) (λ j lt. mark-Entry classes j (omega arith) lt)
          (λ j ge lt. absurd (omega (arith, ge, lt)))
