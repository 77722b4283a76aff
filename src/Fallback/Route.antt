-- ===== src/Fallback/Route.antt =====
-- Which half of a router a block comes from and goes back to.
use forge_alloc.Base.{
  ℕ, ◌+◌, ◌^◌, ◌≤◌, ◌<◌, ◌≡◌, ◌↔◌, ◌⊎◌, arith, inl, inr, true, false, none, some, leb, Bool-cases,
}
use forge_alloc.Core.Layout.{NonZeroLayout}
use forge_alloc.Core.Range.{FixedRange, Block, contains, contains_iff}
use forge_alloc.Core.Allocator.{Allocator}
use forge_alloc.Fallback.{
  WithFallback, ranges_disjoint, try_new, deallocate, fallback_allocate, allocate,
}

-- The two ends are below the top of the address space and no address belongs to both regions.
pub record Apart {P S : Type 0} (w : ℕ) (rp : FixedRange P) (rs : FixedRange S) (p : P) (s : S)
    : Type 0 where
  pub primary : rp.base p + rp.size p < 2 ^ w
  pub secondary : rs.base s + rs.size s < 2 ^ w
  pub disjoint :
      (a : ℕ)
      → rp.base p ≤ a
      → a < rp.base p + rp.size p
      → (a < rs.base s) ⊎ (rs.base s + rs.size s ≤ a)

apart_cases :
    (pb pe sb se : ℕ)
    → pb < pe
    → sb < se
    → ((a : ℕ) → pb ≤ a → a < pe → (a < sb) ⊎ (se ≤ a))
    → (pe ≤ sb) ⊎ (se ≤ pb)
apart_cases pb pe sb se hp hs d = elim (d pb (omega arith) hp) [
  | inr above ↦ inr above
  | inl below ↦ elim (Bool-cases (leb pe sb)) [
    | inl clear ↦ inl (ground (arith, clear))
    | inr crossing ↦ elim (d sb (omega arith) (ground (arith, crossing))) [
      | inl less ↦ absurd (omega (arith, less))
      | inr more ↦ absurd (omega (arith, more))
    ]
  ]
]

-- For two regions that hold at least one byte each, `try_new` builds the router exactly when both regions
-- end below the top of the address space and no address belongs to both.
pub try_new_iff :
    {P S : Type 0} (w : ℕ) (rp : FixedRange P) (rs : FixedRange S) (p : P) (s : S)
    → 1 ≤ rp.size p
    → 1 ≤ rs.size s
    → (try_new w rp rs p s ≡ some (record { primary = p; secondary = s })) ↔ Apart w rp rs p s
unfolding try_new ranges_disjoint
try_new_iff w rp rs p s hp hs = (
  λ e. record {
    primary = ground (arith, e);
    secondary = ground (arith, e);
    disjoint = λ a lo hi. ground (arith, e, lo, hi);
  },
  λ q.
      let clear : (rp.base p + rp.size p ≤ rs.base s) ⊎ (rs.base s + rs.size s ≤ rp.base p) =
        apart_cases (rp.base p) (rp.base p + rp.size p) (rs.base s) (rs.base s + rs.size s)
          (omega (arith, hp)) (omega (arith, hs)) q.disjoint in
      ground (arith, clear, q.primary, q.secondary),
)

module _ (w : ℕ) {P S : Type 0} (rp : FixedRange P) (pa : Allocator P) (sa : Allocator S) where
  -- The primary half serves whatever it can, and the secondary half then stays as it is; a request that
  -- the primary half refuses gets what the secondary half answers.
  pub allocate_routes :
      (f : WithFallback P S) (l : NonZeroLayout)
      → ((b : Block)
          → (pa.allocate f.primary l).1 ≡ some b
          → allocate w rp pa sa f l
            ≡ (record { primary = (pa.allocate f.primary l).0; secondary = f.secondary }, some b))
        × ((pa.allocate f.primary l).1 ≡ none
            → allocate w rp pa sa f l ≡ (
              record {
                primary = (pa.allocate f.primary l).0;
                secondary = (sa.allocate f.secondary l).0;
              },
              (sa.allocate f.secondary l).1,
            ))
  unfolding allocate fallback_allocate
  allocate_routes f l = (λ b got. ground (arith, got), λ full. ground (arith, full))

  -- In a router that `try_new` built from two regions that are not empty, a free of an address in the
  -- region of the primary half goes to the primary half only, and one of an address in the region of the
  -- secondary half to the secondary half only.
  pub deallocate_routes :
      (rs : FixedRange S) (p : P) (s : S) (ptr : ℕ) (l : NonZeroLayout)
      → 1 ≤ rp.size p
      → 1 ≤ rs.size s
      → try_new w rp rs p s ≡ some (record { primary = p; secondary = s })
      → (rp.base p ≤ ptr
          → ptr < rp.base p + rp.size p
          → deallocate w rp pa sa (record { primary = p; secondary = s }) ptr l
            ≡ record { primary = pa.deallocate p ptr l; secondary = s })
        × (rs.base s ≤ ptr
            → ptr < rs.base s + rs.size s
            → deallocate w rp pa sa (record { primary = p; secondary = s }) ptr l
              ≡ record { primary = p; secondary = sa.deallocate s ptr l })
  unfolding deallocate
  deallocate_routes rs p s ptr l hp hs e =
      let q : Apart w rp rs p s = (try_new_iff w rp rs p s hp hs).0 e in
      (
        λ lo hi.
            let inside : contains w rp p ptr ≡ true =
              (contains_iff w rp p ptr (omega (arith, hi, q.primary)) (omega (arith, q.primary))).1
                (lo, hi) in
            ground (arith, inside),
        λ lo hi.
            let outside : contains w rp p ptr ≡ false = elim (Bool-cases (contains w rp p ptr)) [
              | inr no_member ↦ no_member
              | inl member ↦
                  let (from, to) =
                    (contains_iff w rp p ptr (omega (arith, hi, q.secondary))
                        (omega (arith, q.primary))).0
                      member in
                  elim (q.disjoint ptr from to) [
                    | inl less ↦ absurd (omega (arith, less, lo))
                    | inr more ↦ absurd (omega (arith, more, hi))
                  ]
            ] in
            ground (arith, outside),
      )
