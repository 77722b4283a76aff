-- ===== src/Quarantine/Collect.antt =====
-- The blocks in a stretch of the ring, in the order of the places.
use forge_alloc.Base.{
  ℕ, zero, suc, ◌+◌, ◌≤◌, ◌<◌, ◌≡◌, refl, ap, ◌∙◌, arith, Option, none, some, List, [], ◌∷◌, ◌++◌,
  length, get_elem?,
}
use forge_alloc.Quarantine.{QuarantinedBlock}

abbrev pub Ring : Type 0
Ring = ℕ → Option QuarantinedBlock

abbrev pub with_head : Option QuarantinedBlock → List QuarantinedBlock → List QuarantinedBlock
with_head none bs = bs
with_head (some b) bs = b ∷ bs

-- The blocks in `n` places from `i` on.
unfoldable pub collect : ℕ → ℕ → Ring → List QuarantinedBlock
collect zero i ring = []
collect (suc n) i ring = with_head (ring i) (collect n (suc i) ring)

pub collect-eq :
    (n i : ℕ) (a b : Ring)
    → ((k : ℕ) → i ≤ k → k < i + n → a k ≡ b k)
    → collect n i a ≡ collect n i b
unfolding collect
collect-eq zero i a b h = refl
collect-eq (suc n) i a b h =
    ap (λ (t : Option QuarantinedBlock). with_head t (collect n (suc i) a))
      (h i (omega arith) (omega arith))
    ∙ ap (with_head (b i))
        (collect-eq n (suc i) a b (λ k ge lt. h k (omega (arith, ge)) (omega (arith, lt))))

pub collect-held :
    (i : ℕ) (ring : Ring) (bs : List QuarantinedBlock)
    → ((k : ℕ) → k < length bs → ring (i + k) ≡ get_elem? bs k)
    → collect (length bs) i ring ≡ bs
unfolding collect
collect-held i ring [] h = refl
collect-held i ring (b ∷ bs) h =
    ap (λ (t : Option QuarantinedBlock). with_head t (collect (length bs) (suc i) ring))
      (ap ring here ∙ h 0 (omega arith))
    ∙ ap (λ (t : List QuarantinedBlock). b ∷ t)
        (collect-held (suc i) ring bs (λ k lt. ap ring (next k) ∙ h (suc k) (omega (arith, lt))))
  where
    here : i ≡ i + 0
    here = omega arith

    next : (k : ℕ) → suc i + k ≡ i + suc k
    next k = omega arith

pub collect-none :
    (n i : ℕ) (ring : Ring) → ((k : ℕ) → i ≤ k → k < i + n → ring k ≡ none) → collect n i ring ≡ []
unfolding collect
collect-none zero i ring h = refl
collect-none (suc n) i ring h =
    ap (λ (t : Option QuarantinedBlock). with_head t (collect n (suc i) ring))
      (h i (omega arith) (omega arith))
    ∙ collect-none n (suc i) ring (λ k ge lt. h k (omega (arith, ge)) (omega (arith, lt)))

with_head-append :
    (o : Option QuarantinedBlock) (bs cs : List QuarantinedBlock)
    → with_head o (bs ++ cs) ≡ with_head o bs ++ cs
with_head-append none bs cs = refl
with_head-append (some b) bs cs = refl

pub collect-add :
    (m n i : ℕ) (ring : Ring) → collect (m + n) i ring ≡ collect m i ring ++ collect n (i + m) ring
unfolding collect
collect-add zero n i ring =
    ap (λ (t : ℕ). collect t i ring) (omega arith) ∙ ap (λ (t : ℕ). collect n t ring) (omega arith)
collect-add (suc m) n i ring =
    ap (λ (t : ℕ). collect t i ring) (add_suc m)
    ∙ ap (with_head (ring i)) (collect-add m n (suc i) ring)
    ∙ with_head-append (ring i) (collect m (suc i) ring) (collect n (suc i + m) ring)
    ∙ ap (λ (t : ℕ). with_head (ring i) (collect m (suc i) ring) ++ collect n t ring) (omega arith)
  where
    add_suc : (a : ℕ) → suc a + n ≡ suc (a + n)
    add_suc a = omega arith
