-- ===== src/ExtendableSlab/Serve.antt =====
-- What a call of `allocate` answers, and where a free goes.
use forge_alloc.Base.{
  ℕ, ◌+◌, ◌%◌, ◌^◌, ◌≤◌, ◌≡◌, refl, ap, ◌∙◌, inl, inr, arith, Bool, true, false, Option, none, some,
  Option-cases, List, [], ◌∷◌, ◌++◌, length, length-append, All, min,
}
use forge_alloc.Core.Layout.{NonZeroLayout}
use forge_alloc.Core.Range.{Block}
use forge_alloc.Core.Allocator.{Allocator}
use forge_alloc.ExtendableSlab.{
  ExtendableSlab, skip_try, search, push_segment, extend, allocate, free_in, deallocate,
}
use forge_alloc.ExtendableSlab.Search.{Refuses, search-none, search-length, skip_try-length}

module _ {S : Type 0} (al : Allocator S) where
  -- A new segment that serves makes the rest of the call serve, whatever others have added.
  extend_serves :
      (e : ExtendableSlab S) (k : ℕ) (seg : S) (l : NonZeroLayout) (b : Block)
      → (al.allocate seg l).1 ≡ some b
      → (c : Block) × ((extend al e k seg l).1 ≡ some c)
        × (length (extend al e k seg l).0.segments ≤ length e.segments + 1)
  unfolding extend push_segment
  extend_serves e k seg l b got = elim (Option-cases (skip_try al k e.segments l).1) [
    | inl nothing ↦ (
      b,
      ground (arith, nothing, got),
      ground (
        arith,
        nothing,
        got,
        length-append (skip_try al k e.segments l).0 ((al.allocate seg l).0 ∷ []),
        skip_try-length al l k e.segments,
      ),
    )
    | inr ((i, c), found) ↦
        (c, ground (arith, found), ground (arith, found, skip_try-length al l k e.segments))
  ]

  -- Whatever other threads do while the lock is free: where some segment serves, so does the call, and no
  -- segment is added; where all refuse and a new segment can be built that serves, the call serves,
  -- with at most one segment more than others have left; and where all refuse and none can be built, it fails.
  pub allocate_serves :
      (build : Option S) (others : ExtendableSlab S → ExtendableSlab S) (e : ExtendableSlab S)
      (l : NonZeroLayout)
      → ((¬ (All (Refuses al l) e.segments))
          → (b : Block) × ((allocate al build others e l).1 ≡ some b)
            × (length (allocate al build others e l).0.segments ≡ length e.segments))
        × (All (Refuses al l) e.segments
            → (seg : S) → build ≡ some seg
            → (b : Block) → (al.allocate seg l).1 ≡ some b
            → (c : Block) × ((allocate al build others e l).1 ≡ some c)
              × (length (allocate al build others e l).0.segments
                  ≤ length (others (search al e l).0).segments + 1))
        × (All (Refuses al l) e.segments → build ≡ none → (allocate al build others e l).1 ≡ none)
  unfolding allocate
  allocate_serves build others e l = (
    λ some_serve. elim (Option-cases (search al e l).1) [
      | inl nothing ↦ absurd (some_serve ((search-none al l e).0 nothing))
      | inr (b, found) ↦ (b, ground (arith, found), ground (arith, found, search-length al l e))
    ],
    λ full seg made b got.
        let nothing : (search al e l).1 ≡ none = (search-none al l e).1 full in
        let (c, serves, size) =
          extend_serves (others (search al e l).0) (length (search al e l).0.segments) seg l b
            got in
        (c, ground (arith, nothing, made, serves), ground (arith, nothing, made, size)),
    λ full made.
        let nothing : (search al e l).1 ≡ none = (search-none al l e).1 full in
        ground (arith, nothing, made),
  )

  module _ (contains : S → ℕ → Bool) (p : ℕ) (l : NonZeroLayout) where
    abbrev pub Lacks : S → Type 0
    Lacks s = contains s p ≡ false

    free_in-first :
        (before : List S) (s : S) (after : List S)
        → All Lacks before
        → contains s p ≡ true
        → free_in al contains (before ++ s ∷ after) p l
          ≡ some (before ++ al.deallocate s p l ∷ after, length before)
    unfolding free_in
    free_in-first [] s after h here = ground (arith, here)
    free_in-first (x ∷ xs) s after h here = ground (arith, h.0, free_in-first xs s after h.1 here)

    free_in-none : (ss : List S) → All Lacks ss → free_in al contains ss p l ≡ none
    unfolding free_in
    free_in-none [] h = refl
    free_in-none (s ∷ ss) h = ground (arith, h.0, free_in-none ss h.1)

    -- A free goes to the first segment that contains the pointer and to no other, and the hint then is at
    -- that segment or before it; a pointer that no segment contains changes nothing but the counter of
    -- routing failures.
    pub deallocate-segment :
        (w : ℕ) (e : ExtendableSlab S)
        → ((before : List S) (s : S) (after : List S)
            → e.segments ≡ before ++ s ∷ after
            → All Lacks before
            → contains s p ≡ true
            → deallocate al contains w e p l ≡ record {
              segments = before ++ al.deallocate s p l ∷ after;
              first_open_hint = min e.first_open_hint (length before);
              routing_failures = e.routing_failures;
            })
          × (All Lacks e.segments
              → deallocate al contains w e p l
                ≡ record e { routing_failures = (e.routing_failures + 1) % 2 ^ w })
    unfolding deallocate
    deallocate-segment w e = (
      λ before s after split lacks here.
          let found : free_in al contains e.segments p l
              ≡ some (before ++ al.deallocate s p l ∷ after, length before) =
            ap (λ (t : List S). free_in al contains t p l) split
            ∙ free_in-first before s after lacks here in
          ground (arith, found),
      λ lacks. ground (arith, free_in-none e.segments lacks),
    )
