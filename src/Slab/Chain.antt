-- ===== src/Slab/Chain.antt =====
-- The free list in memory: the links from the head on.
use forge_alloc.Base.{ℕ, ◌+◌, ◌≤◌, ◌<◌, ◌≡◌, arith, true, List, [], ◌∷◌, All}
use forge_alloc.Core.Freelist.{FreelistProtection}
use forge_alloc.Slab.{Links}

module _ {M : Type 0} (p : FreelistProtection M) (key : M) where
  -- From `head` the links lead through exactly these slots, and each of them verifies.
  abbrev pub Linked : Links → ℕ → List ℕ → Type 0
  Linked m head [] = head ≡ 0
  Linked m head (i ∷ rest) =
      (head ≡ i + 1)
      × (p.verify key (m i).next_idx (m i).mac i ≡ true)
      × Linked m (m i).next_idx rest

  -- Memory that agrees on the listed slots holds the same list.
  pub Linked-agree :
      (m m' : Links) (head : ℕ) (free : List ℕ)
      → All (λ i. m' i ≡ m i) free
      → Linked m head free
      → Linked m' head free
  Linked-agree m m' head [] same h = h
  Linked-agree m m' head (i ∷ rest) same h =
      rw same.0 (h.0, h.1, Linked-agree m m' (m i).next_idx rest same.1 h.2)

  -- The head of a list of slots below `n` is at most `n`.
  pub Linked-le :
      (m : Links) (head n : ℕ) (free : List ℕ)
      → All (λ i. i < n) free
      → Linked m head free
      → head ≤ n
  Linked-le m head n [] below h = omega arith
  Linked-le m head n (i ∷ rest) below h = omega (arith, below.0, h.0)
