-- ===== src/Generational/Removal.antt =====
-- What a handle reads after a removal.
use native.Mathlib.Nat.{mod-eq_of_lt, add-mod_right, zero-mod}
use forge_alloc.Base.{
  ℕ, ◌+◌, ◌%◌, ◌^◌, ◌<◌, ◌≡◌, ◌≢◌, refl, sym, ap, ◌∙◌, arith, inl, inr, none, ltb, leb, ◌==◌,
  Bool-cases,
}
use forge_alloc.Generational.{
  Handle, GenerationalSlot, GenerationalSlab, wrapping_inc, get, vacate, remove,
}
use forge_alloc.Generational.Handles.{seen, get-seen, seen_stale, slot_written, slot_kept}

-- A generation always moves, if it has a bit at least.
pub wrapping_inc_ne : (g n : ℕ) → 1 < 2 ^ g → n < 2 ^ g → wrapping_inc g n ≢ n
unfolding wrapping_inc
wrapping_inc_ne g n h lt e = elim (Bool-cases (ltb (n + 1) (2 ^ g))) [
  | inl inside ↦
      let same : (n + 1) % 2 ^ g ≡ n + 1 = mod-eq_of_lt (ground (arith, inside)) in
      omega (arith, e, same)
  | inr wraps ↦
      let top : n + 1 ≡ 2 ^ g = ground (arith, wraps) in
      let none_left : (n + 1) % 2 ^ g ≡ 0 =
        ap (λ (t : ℕ). t % 2 ^ g) (top ∙ sym (omega arith))
        ∙ add-mod_right 0 (2 ^ g)
        ∙ zero-mod (2 ^ g) in
      omega (arith, e, none_left, top)
]

module _ {T B : Type 0} where
  vacate-slot :
      (g : ℕ) (s : GenerationalSlab T B) (idx : ℕ)
      → ((vacate g s idx).slots idx).generation ≡ wrapping_inc g (s.slots idx).generation
  unfolding vacate
  vacate-slot g s idx = elim (Bool-cases (wrapping_inc g (s.slots idx).generation == 0)) [
    | inl wraps ↦ rw wraps (ap (λ (x : GenerationalSlot T). x.generation) (slot_written s idx _))
    | inr moves ↦ rw moves (ap (λ (x : GenerationalSlot T). x.generation) (slot_written s idx _))
  ]

  vacate_kept :
      (g : ℕ) (s : GenerationalSlab T B) (idx j : ℕ)
      → j ≢ idx
      → (vacate g s idx).slots j ≡ s.slots j
  unfolding vacate
  vacate_kept g s idx j ne = elim (Bool-cases (wrapping_inc g (s.slots idx).generation == 0)) [
    | inl wraps ↦ rw wraps (slot_kept s idx _ j ne)
    | inr moves ↦ rw moves (slot_kept s idx _ j ne)
  ]

  vacate-capacity :
      (g : ℕ) (s : GenerationalSlab T B) (idx : ℕ) → (vacate g s idx).capacity ≡ s.capacity
  unfolding vacate
  vacate-capacity g s idx = elim (Bool-cases (wrapping_inc g (s.slots idx).generation == 0)) [
    | inl wraps ↦ rw wraps refl
    | inr moves ↦ rw moves refl
  ]

  -- `remove` returns exactly what `get` reads, for a live, a stale, a vacant and a foreign handle.
  pub remove-get : (g : ℕ) (s : GenerationalSlab T B) (h : Handle) → (remove g s h).1 ≡ get s h
  unfolding remove get
  remove-get g s h = ground arith

  -- After `remove` of a handle, for a generation of at least one bit, the handle and all its copies read
  -- nothing, and every handle of another slot reads what it did.
  pub get-remove :
      (g : ℕ) (s : GenerationalSlab T B) (h : Handle)
      → 1 < 2 ^ g
      → h.generation < 2 ^ g
      → (get (remove g s h).0 h ≡ none)
        × ((k : Handle) → k.index ≢ h.index → get (remove g s h).0 k ≡ get s k)
  unfolding remove
  get-remove g s h wide lt = elim (Bool-cases (leb s.capacity h.index)) [
    | inl past ↦ rw past (get-seen s h ∙ rw past refl, λ k ne. refl)
    | inr inside ↦ elim (Bool-cases ((s.slots h.index).generation == h.generation)) [
      | inr stale ↦
          rw (inside, stale)
            (
              get-seen s h ∙ seen_stale s.capacity (s.slots h.index) h (ground (arith, stale)),
              λ k ne. refl,
            )
      | inl live ↦
          let same : (s.slots h.index).generation ≡ h.generation = ground (arith, live) in
          let moved : ((vacate g s h.index).slots h.index).generation ≢ h.generation = λ e.
            wrapping_inc_ne g h.generation wide lt
              (sym (ap (wrapping_inc g) same) ∙ sym (vacate-slot g s h.index) ∙ e) in
          rw (inside, live)
            (
              get-seen (vacate g s h.index) h
                  ∙ seen_stale (vacate g s h.index).capacity ((vacate g s h.index).slots h.index) h
                      moved,
              λ k ne.
                  get-seen (vacate g s h.index) k
                  ∙ ap (λ (c : ℕ). seen c ((vacate g s h.index).slots k.index) k)
                      (vacate-capacity g s h.index)
                  ∙ ap (λ (x : GenerationalSlot T). seen s.capacity x k)
                      (vacate_kept g s h.index k.index ne)
                  ∙ sym (get-seen s k),
            )
    ]
  ]
