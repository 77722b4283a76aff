-- ===== src/Faults/Runs.antt =====
-- An allocator under the policy that lets a number of requests through.
use forge_alloc.Base.{
  ℕ, zero, suc, ◌-◌, ◌≤◌, ◌≡◌, refl, ap, ◌∙◌, arith, none, List, [], ◌∷◌, length,
}
use forge_alloc.Core.Layout.{NonZeroLayout}
use forge_alloc.Core.Allocator.{Allocator}
use forge_alloc.Faults.{AllocFaultPolicy, FailAfter, fail_after, Faulty, allocate}

abbrev pub after_policy : AllocFaultPolicy FailAfter
after_policy = record { should_fail = fail_after }

-- The first `n` members.
pub take {ℓ} : {A : Type ℓ} → ℕ → List A → List A
take zero xs = []
take (suc n) [] = []
take (suc n) (x ∷ xs) = x ∷ take n xs

module _ {I : Type 0} (i : Allocator I) where
  -- An allocator with `n` successes left.
  abbrev pub budget : I → ℕ → Faulty I FailAfter
  budget a n = record { inner = a; policy = record { successes_left = n } }

  -- The state after a run of requests, without the policy and with it.
  pub serve : I → List NonZeroLayout → I
  serve a [] = a
  serve a (l ∷ rest) = serve (i.allocate a l).0 rest

  pub requests : Faulty I FailAfter → List NonZeroLayout → Faulty I FailAfter
  requests f [] = f
  requests f (l ∷ rest) = requests (allocate i after_policy f l).0 rest

  pass :
      (f : Faulty I FailAfter) (l : NonZeroLayout)
      → 1 ≤ f.policy.successes_left
      → allocate i after_policy f l ≡ (
        record {
          inner = (i.allocate f.inner l).0;
          policy = record { successes_left = f.policy.successes_left - 1 };
        },
        (i.allocate f.inner l).1,
      )
  unfolding allocate fail_after
  pass f l h = ground arith

  stop :
      (f : Faulty I FailAfter) (l : NonZeroLayout)
      → f.policy.successes_left ≡ 0
      → allocate i after_policy f l ≡ (f, none)
  unfolding allocate fail_after
  stop f l h = ground arith

  first_pass :
      (a : I) (n : ℕ) (l : NonZeroLayout)
      → (allocate i after_policy (budget a (suc n)) l).0 ≡ budget (i.allocate a l).0 n
  unfolding allocate fail_after
  first_pass a n l =
      ap (λ f. f.0) (pass (budget a (suc n)) l (omega arith))
      ∙ ap (λ (k : ℕ). budget (i.allocate a l).0 k) (omega arith)

  -- A policy for `n` successes lets the first `n` requests of any run through to the inner allocator and
  -- refuses every later one without touching it.
  pub requests_lem :
      (a : I) (n : ℕ) (ls : List NonZeroLayout)
      → requests (budget a n) ls ≡ budget (serve a (take n ls)) (n - length ls)
  unfolding requests serve take
  requests_lem a zero [] = ap (budget a) (omega arith)
  requests_lem a zero (x ∷ rest) =
      ap (λ f. requests f.0 rest) (stop (budget a zero) x refl)
      ∙ requests_lem a zero rest
      ∙ ap (budget a) (omega arith)
  requests_lem a (suc n) [] = ap (budget a) (omega arith)
  requests_lem a (suc n) (x ∷ rest) =
      ap (λ (f : Faulty I FailAfter). requests f rest) (first_pass a n x)
      ∙ requests_lem (i.allocate a x).0 n rest
      ∙ ap (budget (serve (i.allocate a x).0 (take n rest))) (omega arith)
