-- ===== src/Quarantine/Held.antt =====
-- What a ring holds after `n` frees, and what one free does to it.
use native.Mathlib.Nat.{mod-eq_of_lt, mod-add-mod}
use forge_alloc.Base.{
  ℕ, suc, ◌+◌, ◌-◌, ◌%◌, ◌^◌, ◌≤◌, ◌<◌, ◌≡◌, ◌≢◌, refl, sym, ap, subst, ◌∙◌, inl, inr, arith,
  Bool-cases, Option, none, some, List, [], ◌∷◌, ◌++◌, length, length-append, get_elem?,
  get_elem?-append, get_elem?-append_length, ltb, ==_iff,
}
use forge_alloc.Word.Bits.{two-pow-pos}
use forge_alloc.Core.Allocator.{Allocator}
use forge_alloc.Quarantine.{Quarantine, QuarantinedBlock, new, update, evict, deallocate}
use forge_alloc.Quarantine.Ring.{mod-ne, mod-sub}
use forge_alloc.Quarantine.Queue.{Delayed, settle, delay}

-- After `n` frees: the queue holds the last ones, at most `e`, and the block of round `k` stands at
-- place `k % e`.
pub record Holds {S : Type 0} (w e n : ℕ) (q : Quarantine S) (d : Delayed S) : Type 0 where
  pub inner : q.inner ≡ d.inner
  pub short : length d.held ≤ n
  pub fits : length d.held ≤ e
  pub full : length d.held < e → length d.held ≡ n
  pub slots :
      (k : ℕ)
      → k < n
      → n ≤ k + length d.held
      → q.ring (k % e) ≡ get_elem? d.held (k + length d.held - n)
  pub empty : (i : ℕ) → n ≤ i → i < e → q.ring i ≡ none
  pub count : q.count ≡ n % 2 ^ w

pub new-Holds :
    {S : Type 0} (w e : ℕ) (s : S) → Holds w e 0 (new s) (record { inner = s; held = [] })
unfolding new
new-Holds w e s = record {
  inner = refl;
  short = omega arith;
  fits = omega arith;
  full = λ h. refl;
  slots = λ k h. absurd (omega (arith, h));
  empty = λ i h lt. refl;
  count = sym (mod-eq_of_lt (two-pow-pos w));
}

pub update_ne :
    (ring : ℕ → Option QuarantinedBlock) (i j : ℕ) (b : Option QuarantinedBlock)
    → i ≢ j
    → update ring j b i ≡ ring i
update_ne ring i j b h = ground (arith, ==_iff i j, h)

pub update_eq :
    (ring : ℕ → Option QuarantinedBlock) (i j : ℕ) (b : Option QuarantinedBlock)
    → i ≡ j
    → update ring j b i ≡ b
update_eq ring i j b h = ground (arith, ==_iff i j, h)

module _ {S : Type 0} (al : Allocator S) (w e : ℕ) (pos : 1 ≤ e) where
  settle_short :
      (s : S) (held : List QuarantinedBlock) (b : QuarantinedBlock)
      → length held < e
      → settle al e s (held ++ b ∷ []) ≡ record { inner = s; held = held ++ b ∷ [] }
  unfolding settle
  settle_short s [] b h = ground (arith, pos)
  settle_short s (x ∷ xs) b h = ground (arith, length-append xs (b ∷ []), h)

  settle_full :
      (s : S) (o : QuarantinedBlock) (rest : List QuarantinedBlock) (b : QuarantinedBlock)
      → length (o ∷ rest) ≡ e
      → settle al e s ((o ∷ rest) ++ b ∷ [])
        ≡ record { inner = al.deallocate s o.ptr o.layout; held = rest ++ b ∷ [] }
  unfolding settle
  settle_full s o rest b h = ground (arith, length-append rest (b ∷ []), h)

  module _ (n : ℕ) (q : Quarantine S) (s : S) (b : QuarantinedBlock)
      (at : q.count % e ≡ n % e) where
    -- The block of a round after the write of round `n`, in the queue `kept` and the new block.
    written :
        (kept : List QuarantinedBlock)
        → length kept < e
        → ((k : ℕ)
            → k < n
            → n ≤ k + length kept
            → q.ring (k % e) ≡ get_elem? kept (k + length kept - n))
        → (k : ℕ) → k < suc n
        → suc n ≤ k + length (kept ++ b ∷ [])
        → (deallocate al w e q b.ptr b.layout).ring (k % e)
          ≡ get_elem? (kept ++ b ∷ []) (k + length (kept ++ b ∷ []) - suc n)
    unfolding deallocate
    written kept less slots k lt near = elim (Bool-cases (ltb k n)) [
      | inr last ↦
          let same : k ≡ n = ground (arith, last) in
          let index : k + length (kept ++ b ∷ []) - suc n ≡ length kept + 0 =
            omega (arith, length-append kept (b ∷ [])) in
          update_eq q.ring (k % e) (q.count % e) (some b) (ap (λ (t : ℕ). t % e) same ∙ sym at)
          ∙ sym (get_elem?-append_length kept (b ∷ []) 0)
          ∙ ap (get_elem? (kept ++ b ∷ [])) (sym index)
      | inl old ↦
          let before : k < n = ground (arith, old) in
          let index : k + length (kept ++ b ∷ []) - suc n ≡ k + length kept - n =
            omega (arith, length-append kept (b ∷ [])) in
          let reach : n ≤ k + length kept = omega (arith, length-append kept (b ∷ [])) in
          update_ne q.ring (k % e) (q.count % e) (some b)
            (λ same. mod-ne e k n before (omega arith) (same ∙ at))
          ∙ slots k before reach
          ∙ sym (get_elem?-append kept (b ∷ []) (k + length kept - n) (omega arith))
          ∙ ap (get_elem? (kept ++ b ∷ [])) (sym index)
    ]

    pushed-Holds :
        (held : List QuarantinedBlock)
        → length held < e
        → Holds w e n q (record { inner = s; held = held })
        → Holds w e
            (suc n)
            (deallocate al w e q b.ptr b.layout)
            (record { inner = s; held = held ++ b ∷ [] })
    unfolding deallocate evict
    pushed-Holds held less h =
        let small : n < e = omega (arith, h.full less) in
        let place : q.count % e ≡ n = at ∙ mod-eq_of_lt small in
        record {
          inner = ap (evict al q.inner) (ap q.ring place ∙ h.empty n (omega arith) small) ∙ h.inner;
          short = omega (arith, length-append held (b ∷ []), h.short);
          fits = omega (arith, length-append held (b ∷ []), less);
          full = λ lt. omega (arith, length-append held (b ∷ []), h.full less);
          slots = written held less h.slots;
          empty = λ i ge lt.
              update_ne q.ring i (q.count % e) (some b) (λ same. absurd (omega (arith, place, ge)))
              ∙ h.empty i (omega (arith, ge)) lt;
          count =
              ap (λ (t : ℕ). (t + 1) % 2 ^ w) h.count
              ∙ mod-add-mod n (2 ^ w) 1
              ∙ ap (λ (t : ℕ). t % 2 ^ w) (omega arith);
        }

    shifted-Holds :
        (o : QuarantinedBlock) (rest : List QuarantinedBlock)
        → length (o ∷ rest) ≡ e
        → Holds w e n q (record { inner = s; held = o ∷ rest })
        → Holds w e
            (suc n)
            (deallocate al w e q b.ptr b.layout)
            (record { inner = al.deallocate s o.ptr o.layout; held = rest ++ b ∷ [] })
    unfolding deallocate evict
    shifted-Holds o rest at_end h =
        let room : e ≤ n = omega (arith, h.short) in
        let oldest : q.ring (q.count % e) ≡ some o =
          ap q.ring (at ∙ sym (mod-sub e n room))
          ∙ h.slots (n - e) (omega arith) (omega arith)
          ∙ ap (get_elem? (o ∷ rest)) (first room) in
        record {
          inner =
              ap (evict al q.inner) oldest ∙ ap (λ (x : S). al.deallocate x o.ptr o.layout) h.inner;
          short = omega (arith, length-append rest (b ∷ []), h.short);
          fits = omega (arith, length-append rest (b ∷ []));
          full = λ lt. absurd (omega (arith, length-append rest (b ∷ []), lt));
          slots = written rest (omega arith) (λ k lt near.
              h.slots k lt (omega (arith, near)) ∙ ap (get_elem? (o ∷ rest)) (next k lt near));
          empty = λ i ge lt. absurd (omega (arith, ge, lt));
          count =
              ap (λ (t : ℕ). (t + 1) % 2 ^ w) h.count
              ∙ mod-add-mod n (2 ^ w) 1
              ∙ ap (λ (t : ℕ). t % 2 ^ w) (omega arith);
        }
      where
        first : e ≤ n → n - e + length (o ∷ rest) - n ≡ 0
        first room = omega arith

        next :
            (k : ℕ)
            → k < n
            → n ≤ k + length rest
            → k + length (o ∷ rest) - n ≡ suc (k + length rest - n)
        next k lt near = omega arith

  -- One free, in the code and in the specification.
  pub delay-Holds :
      (n : ℕ) (q : Quarantine S) (s : S) (held : List QuarantinedBlock) (b : QuarantinedBlock)
      → q.count % e ≡ n % e
      → Holds w e n q (record { inner = s; held = held })
      → Holds w e
          (suc n)
          (deallocate al w e q b.ptr b.layout)
          (delay al e (record { inner = s; held = held }) b)
  unfolding delay
  delay-Holds n q s [] b at h =
      subst (Holds w e (suc n) (deallocate al w e q b.ptr b.layout))
        (sym (settle_short s [] b (omega arith))) (pushed-Holds n q s b at [] (omega arith) h)
  delay-Holds n q s (o ∷ rest) b at h = elim (Bool-cases (ltb (length (o ∷ rest)) e)) [
    | inl less ↦
        subst (Holds w e (suc n) (deallocate al w e q b.ptr b.layout))
          (sym (settle_short s (o ∷ rest) b (ground (arith, less))))
          (pushed-Holds n q s b at (o ∷ rest) (ground (arith, less)) h)
    | inr at_end ↦
        let size : length (o ∷ rest) ≡ e = ground (arith, at_end, h.fits) in
        subst (Holds w e (suc n) (deallocate al w e q b.ptr b.layout))
          (sym (settle_full s o rest b size)) (shifted-Holds n q s b at o rest size h)
  ]
