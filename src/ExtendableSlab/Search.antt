-- ===== src/ExtendableSlab/Search.antt =====
-- The two searches under the lock try every segment.
use forge_alloc.Base.{
  ℕ, zero, suc, ◌≡◌, ◌↔◌, refl, sym, ap, ◌∙◌, inl, inr, arith, Option, none, some, Option-cases,
  List, [], ◌∷◌, length, All, min,
}
use forge_alloc.Core.Layout.{NonZeroLayout}
use forge_alloc.Core.Range.{Block}
use forge_alloc.Core.Allocator.{Allocator}
use forge_alloc.ExtendableSlab.{
  ExtendableSlab, shift, try_all, skip_try, take_try, search_below, search,
}

module _ {S : Type 0} (al : Allocator S) (l : NonZeroLayout) where
  abbrev pub Refuses : S → Type 0
  Refuses s = (al.allocate s l).1 ≡ none

  shift-none : (o : Option (ℕ × Block)) → shift o ≡ none → o ≡ none
  shift-none none h = refl
  shift-none (some x) h = cc

  -- How one segment changes a search of the rest.
  module _ (s : S) (ss : List S) where
    try_served :
        (b : Block) → (al.allocate s l).1 ≡ some b → (try_all al (s ∷ ss) l).1 ≡ some (0, b)
    unfolding try_all
    try_served b got = ground (arith, got)

    try_refused : Refuses s → (try_all al (s ∷ ss) l).1 ≡ shift (try_all al ss l).1
    unfolding try_all
    try_refused full = ground (arith, full)

    take_served :
        (k : ℕ) (b : Block)
        → (al.allocate s l).1 ≡ some b
        → (take_try al (suc k) (s ∷ ss) l).1 ≡ some (0, b)
    unfolding take_try
    take_served k b got = ground (arith, got)

    take_refused :
        (k : ℕ) → Refuses s → (take_try al (suc k) (s ∷ ss) l).1 ≡ shift (take_try al k ss l).1
    unfolding take_try
    take_refused k full = ground (arith, full)

  try_all-none : (ss : List S) → ((try_all al ss l).1 ≡ none) ↔ All Refuses ss
  unfolding try_all
  try_all-none [] = (λ h. tt, λ h. refl)
  try_all-none (s ∷ ss) = (
    λ h. elim (Option-cases (al.allocate s l).1) [
      | inl full ↦ (
        full,
        (try_all-none ss).0 (shift-none (try_all al ss l).1 (sym (try_refused s ss full) ∙ h)),
      )
      | inr (b, got) ↦ absurd (ground (arith, try_served s ss b got, h))
    ],
    λ h. try_refused s ss h.0 ∙ ap shift ((try_all-none ss).1 h.1),
  )

  -- Where the search from `k` on finds nothing, the search below `k` finds nothing exactly where all
  -- segments refuse.
  skip_try-none :
      (k : ℕ) (ss : List S)
      → (skip_try al k ss l).1 ≡ none
      → All Refuses ss ↔ ((take_try al k (skip_try al k ss l).0 l).1 ≡ none)
  unfolding skip_try take_try
  skip_try-none zero ss none_from = (λ h. refl, λ h. (try_all-none ss).0 none_from)
  skip_try-none (suc k) [] none_from = (λ h. refl, λ h. tt)
  skip_try-none (suc k) (s ∷ ss) none_from =
      let rest : List S = (skip_try al k ss l).0 in
      let ih : All Refuses ss ↔ ((take_try al k rest l).1 ≡ none) =
        skip_try-none k ss (shift-none (skip_try al k ss l).1 none_from) in
      (
        λ h. take_refused s rest k h.0 ∙ ap shift (ih.0 h.1),
        λ h. elim (Option-cases (al.allocate s l).1) [
          | inl full ↦ (
            full,
            ih.1 (shift-none (take_try al k rest l).1 (sym (take_refused s rest k full) ∙ h)),
          )
          | inr (b, got) ↦ absurd (ground (arith, take_served s rest k b got, h))
        ],
      )

  skip_try-refused : (k : ℕ) (ss : List S) → All Refuses ss → (skip_try al k ss l).1 ≡ none
  unfolding skip_try
  skip_try-refused zero ss h = (try_all-none ss).1 h
  skip_try-refused (suc k) [] h = refl
  skip_try-refused (suc k) (s ∷ ss) h = ap shift (skip_try-refused k ss h.1)

  -- The length of the list of segments does not change.
  try_all-length : (ss : List S) → length (try_all al ss l).0 ≡ length ss
  unfolding try_all
  try_all-length [] = refl
  try_all-length (s ∷ ss) = ground (arith, try_all-length ss)

  pub skip_try-length : (k : ℕ) (ss : List S) → length (skip_try al k ss l).0 ≡ length ss
  unfolding skip_try
  skip_try-length zero ss = try_all-length ss
  skip_try-length (suc k) [] = refl
  skip_try-length (suc k) (s ∷ ss) = ap suc (skip_try-length k ss)

  take_try-length : (k : ℕ) (ss : List S) → length (take_try al k ss l).0 ≡ length ss
  unfolding take_try
  take_try-length zero ss = refl
  take_try-length (suc k) [] = refl
  take_try-length (suc k) (s ∷ ss) = ground (arith, take_try-length k ss)

  -- Both searches together find nothing exactly where every segment refuses, wherever the hint stands.
  pub search-none : (e : ExtendableSlab S) → ((search al e l).1 ≡ none) ↔ All Refuses e.segments
  unfolding search search_below
  search-none e =
      let start : ℕ = min e.first_open_hint (length e.segments) in
      (
        λ h. elim (Option-cases (skip_try al start e.segments l).1) [
          | inl from ↦
              (skip_try-none start e.segments from).1
                (elim (Option-cases (take_try al start (skip_try al start e.segments l).0 l).1) [
                  | inl below ↦ below
                  | inr ((i, b), below) ↦ absurd (ground (arith, h, from, below))
                ])
          | inr ((i, b), from) ↦ absurd (ground (arith, h, from))
        ],
        λ h.
            let from : (skip_try al start e.segments l).1 ≡ none =
              skip_try-refused start e.segments h in
            let below : (take_try al start (skip_try al start e.segments l).0 l).1 ≡ none =
              (skip_try-none start e.segments from).0 h in
            ground (arith, from, below),
      )

  pub search-length : (e : ExtendableSlab S) → length (search al e l).0.segments ≡ length e.segments
  unfolding search search_below
  search-length e =
      let start : ℕ = min e.first_open_hint (length e.segments) in
      ground (
        arith,
        skip_try-length start e.segments,
        take_try-length start (skip_try al start e.segments l).0,
      )
