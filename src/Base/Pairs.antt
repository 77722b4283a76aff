-- ===== src/Base/Pairs.antt =====
-- Relations between all members of a list, and what removing or inserting a member does to them.
use mathlib.Core.Path.{◌≡◌, refl}
use mathlib.Core.List.{List, [], ◌∷◌, ◌++◌}
use mathlib.Core.Bool.{Bool, true, false}
use forge_alloc.Base.Lists.{All, All-map}
use forge_alloc.Base.Tests.{if◌then◌else◌}

-- Every two members at different places are related.
abbrev pub AllPairs {ℓ κ} : {A : Type ℓ} → (A → A → Type κ) → List A → Type κ
AllPairs R [] = Unit
AllPairs R (x ∷ xs) = All (R x) xs × AllPairs R xs

-- The members that pass a test.
pub keep {ℓ} : {A : Type ℓ} → (A → Bool) → List A → List A
keep f [] = []
keep f (x ∷ xs) = let rest = keep f xs in if f x then x ∷ rest else rest

module _ {ℓ κ} {A : Type ℓ} (P : A → Type κ) where
  pub All-middle :
      (xs : List A) (x : A) (ys : List A) → All P (xs ++ x ∷ ys) → P x × All P (xs ++ ys)
  All-middle [] x ys h = h
  All-middle (z ∷ xs) x ys h = let (p, q) = All-middle xs x ys h.1 in (p, (h.0, q))

  pub All-insert :
      (xs : List A) (x : A) (ys : List A) → P x → All P (xs ++ ys) → All P (xs ++ x ∷ ys)
  All-insert [] x ys p h = (p, h)
  All-insert (z ∷ xs) x ys p h = (h.0, All-insert xs x ys p h.1)

  -- A member that is kept has passed the test.
  pub All-keep : (f : A → Bool) (xs : List A) → All P xs → All (λ x. P x × (f x ≡ true)) (keep f xs)
  unfolding keep
  All-keep f [] h = tt
  All-keep f (x ∷ xs) h = go (f x) refl (All-keep f xs h.1)
    where
      go :
          (b : Bool)
          → f x ≡ b
          → All (λ y. P y × (f y ≡ true)) (keep f xs)
          → All (λ y. P y × (f y ≡ true)) (if b then x ∷ keep f xs else keep f xs)
      go true e rest = ((h.0, e), rest)
      go false e rest = rest

module _ {ℓ κ} {A : Type ℓ} (R : A → A → Type κ) where
  pub AllPairs-keep : (f : A → Bool) (xs : List A) → AllPairs R xs → AllPairs R (keep f xs)
  unfolding keep
  AllPairs-keep f [] h = tt
  AllPairs-keep f (x ∷ xs) h = go (f x) (AllPairs-keep f xs h.1)
    where
      go : (b : Bool) → AllPairs R (keep f xs) → AllPairs R (if b then x ∷ keep f xs else keep f xs)
      go true rest = (
        All-map (λ y. R x y × (f y ≡ true)) (R x) (keep f xs) (λ y p. p.0)
            (All-keep (R x) f xs h.0),
        rest,
      )
      go false rest = rest

  module _ (flip : (x y : A) → R x y → R y x) where
    pub AllPairs-middle :
        (xs : List A) (x : A) (ys : List A)
        → AllPairs R (xs ++ x ∷ ys)
        → All (R x) (xs ++ ys) × AllPairs R (xs ++ ys)
    AllPairs-middle [] x ys h = h
    AllPairs-middle (z ∷ xs) x ys h =
        let (p, q) = All-middle (R z) xs x ys h.0 in
        let (others, rest) = AllPairs-middle xs x ys h.1 in ((flip z x p, others), (q, rest))

    pub AllPairs-insert :
        (xs : List A) (x : A) (ys : List A)
        → All (R x) (xs ++ ys)
        → AllPairs R (xs ++ ys)
        → AllPairs R (xs ++ x ∷ ys)
    AllPairs-insert [] x ys p h = (p, h)
    AllPairs-insert (z ∷ xs) x ys p h =
        (All-insert (R z) xs x ys (flip x z p.0) h.0, AllPairs-insert xs x ys p.1 h.1)
