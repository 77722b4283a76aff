-- ===== src/SizeClassed/Undo.antt =====
-- A construction that fails.
use forge_alloc.Base.{
  ℕ, zero, suc, ◌+◌, ◌^◌, ◌≤◌, ◌<◌, ◌≡◌, refl, sym, ap, subst, ◌∙◌, inl, inr, arith, Bool, true,
  false, Option, none, some, Bool-cases, Option-cases, ◌==◌, ==_iff,
}
use forge_alloc.Word.Defs.{wrapping_sub}
use forge_alloc.Word.Wrap.{wrapping_sub_le}
use forge_alloc.Core.Layout.{NonZeroLayout}
use forge_alloc.Core.Range.{FixedRange, Block}
use forge_alloc.Core.Allocator.{Allocator}
use forge_alloc.SizeClassed.Untyped
use forge_alloc.SizeClassed.Untyped.{UntypedSlab}
use forge_alloc.SizeClassed.{
  Built, set, build_class, build_classes, undo, no_classes, region_layout, with_class_sizes,
}

-- A backing that serves from one region and takes its last block back exactly, and on which a refusal
-- leaves no trace.
pub record IsStackLike {B : Type 0} (w : ℕ) (r : FixedRange B) (al : Allocator B) : Type 0 where
  pub refuses : (b b' : B) (l : NonZeroLayout) → al.allocate b l ≡ (b', none) → b' ≡ b
  pub restores :
      (b b' : B) (l : NonZeroLayout) (c : Block)
      → al.allocate b l ≡ (b', some c)
      → al.deallocate b' c.address l ≡ b
  pub serves :
      (b b' : B) (l : NonZeroLayout) (c : Block)
      → al.allocate b l ≡ (b', some c)
      → (r.base b' ≤ c.address) × (c.address < 2 ^ w)

set_other {ℓ} : {A : Type ℓ} (f : ℕ → A) (n i : ℕ) (v : A) → i < n → set f n v i ≡ f i
set_other f n i v lt = ground (arith, lt)

set_same {ℓ} : {A : Type ℓ} (f : ℕ → A) (n : ℕ) (v : A) → set f n v n ≡ v
set_same f n v = ground (arith, (==_iff n n).1 refl)

module _ (w : ℕ) {B : Type 0} (r : FixedRange B) (al : Allocator B) where
  undo-eq :
      (n : ℕ) (f g : ℕ → UntypedSlab) (c d : ℕ → NonZeroLayout) (b : B)
      → ((i : ℕ) → i < n → f i ≡ g i)
      → ((i : ℕ) → i < n → c i ≡ d i)
      → undo w r al f c n b ≡ undo w r al g d n b
  unfolding undo
  undo-eq zero f g c d b hf hc = refl
  undo-eq (suc n) f g c d b hf hc =
      ap
        (λ (u : UntypedSlab).
          undo w r al f c n (al.deallocate b (Untyped.base_ptr u (r.base b)) (c n)))
        (hf n (omega arith))
      ∙ ap
          (λ (l : NonZeroLayout).
            undo w r al f c n (al.deallocate b (Untyped.base_ptr (g n) (r.base b)) l))
          (hc n (omega arith))
      ∙ undo-eq n f g c d (al.deallocate b (Untyped.base_ptr (g n) (r.base b)) (d n))
          (λ i lt. hf i (omega (arith, lt))) (λ i lt. hc i (omega (arith, lt)))

  -- What was built can be taken down to `origin`.
  abbrev Undoes : B → Built B → Type 0
  Undoes origin st = undo w r al st.slabs st.class_layouts st.built st.backing ≡ origin

  module _ (h : IsStackLike w r al) (class_sizes : ℕ → ℕ) (slots : ℕ) where
    -- One more region on top of `n`.
    pushed :
        (origin b b' : B) (slabs : ℕ → UntypedSlab) (layouts : ℕ → NonZeroLayout) (n stride : ℕ)
        (l : NonZeroLayout) (c : Block)
        → undo w r al slabs layouts n b ≡ origin
        → al.allocate b l ≡ (b', some c)
        → undo w r al
            (set slabs n (Untyped.new (wrapping_sub w c.address (r.base b')) stride slots))
            (set layouts n l)
            (suc n)
            b'
          ≡ origin
    unfolding undo Untyped.base_ptr Untyped.new
    pushed origin b b' slabs layouts n stride l c before got =
        let u : UntypedSlab = Untyped.new (wrapping_sub w c.address (r.base b')) stride slots in
        let (from, top) = h.serves b b' l c got in
        let there : r.base b' + wrapping_sub w c.address (r.base b') ≡ c.address =
          omega (arith, wrapping_sub_le w c.address (r.base b') from top, from) in
        undo-eq n (set slabs n u) slabs (set layouts n l) layouts
          (al.deallocate b' (Untyped.base_ptr (set slabs n u n) (r.base b')) (set layouts n l n))
          (λ i lt. set_other slabs n i u lt) (λ i lt. set_other layouts n i l lt)
        ∙ ap (undo w r al slabs layouts n) (
            ap
              (λ (x : UntypedSlab).
                al.deallocate b' (Untyped.base_ptr x (r.base b')) (set layouts n l n))
              (set_same slabs n u)
            ∙ ap (λ (x : ℕ). al.deallocate b' x (set layouts n l n)) there
            ∙ ap (al.deallocate b' c.address) (set_same layouts n l)
            ∙ h.restores b b' l c got)
        ∙ before

    -- One round, where the layout of the region is `l`.
    module _ (origin : B) (st : Built B) (u : Undoes origin st) where
      one : Built B × Bool
      one = build_class w r al class_sizes slots st st.built

      abbrev After : Built B × Bool → Type 0
      After x = Undoes origin x.0 × (x.1 ≡ true → x.0.built ≡ suc st.built)

      stopped : (b : B) → b ≡ st.backing → After (record st { backing = b }, false)
      stopped b same =
          (ap (undo w r al st.slabs st.class_layouts st.built) same ∙ u, λ (e : false ≡ true). cc)

      served :
          (b : B) (l : NonZeroLayout) (c : Block)
          → region_layout w (class_sizes st.built) slots ≡ some l
          → al.allocate st.backing l ≡ (b, some c)
          → one ≡ (
            record {
              backing = b;
              slabs =
                  set st.slabs st.built (
                    Untyped.new (wrapping_sub w c.address (r.base b)) (class_sizes st.built) slots);
              class_layouts = set st.class_layouts st.built l;
              built = st.built + 1;
            },
            true,
          )
      unfolding one build_class
      served b l c ok got = ground (arith, ok, got)

      build_class-Undoes : After one
      unfolding one build_class
      build_class-Undoes = elim (Option-cases (region_layout w (class_sizes st.built) slots)) [
        | inl no_layout ↦ subst After (sym (ground (arith, no_layout))) (stopped st.backing refl)
        | inr (l, ok) ↦
            let b : B = (al.allocate st.backing l).0 in
            elim (Option-cases (al.allocate st.backing l).1) [
              | inl full ↦
                  subst After (sym (ground (arith, ok, full)))
                    (stopped b (h.refuses st.backing b l (ap (λ (t : Option Block). (b, t)) full)))
              | inr (c, got) ↦
                  subst After (sym (served b l c ok (ap (λ (t : Option Block). (b, t)) got))) (
                    ap
                          (λ (t : ℕ).
                            undo w r al
                              (set st.slabs st.built (
                                Untyped.new (wrapping_sub w c.address (r.base b))
                                  (class_sizes st.built) slots))
                              (set st.class_layouts st.built l) t b)
                          (omega arith)
                        ∙ pushed origin st.backing b st.slabs st.class_layouts st.built
                            (class_sizes st.built) l c u (ap (λ (t : Option Block). (b, t)) got),
                    λ e. omega arith,
                  )
            ]
      ]

    build_classes-Undoes :
        (n i : ℕ) (origin : B) (st : Built B)
        → st.built ≡ i
        → Undoes origin st
        → Undoes origin (build_classes w r al class_sizes slots n i st)
    unfolding build_classes one
    build_classes-Undoes zero i origin st at u = u
    build_classes-Undoes (suc n) i origin st at u =
        subst (λ (t : ℕ). Undoes origin (build_classes w r al class_sizes slots (suc n) t st)) at
          (go (build_class w r al class_sizes slots st st.built) (build_class-Undoes origin st u)
            (λ st' count u'. build_classes-Undoes n (suc st.built) origin st' count u'))
      where
        go :
            (x : Built B × Bool)
            → After origin st u x
            → ((st' : Built B)
                → st'.built ≡ suc st.built
                → Undoes origin st'
                → Undoes origin (build_classes w r al class_sizes slots n (suc st.built) st'))
            → Undoes origin (elim x.1 [
              | false ↦ x.0
              | true ↦ build_classes w r al class_sizes slots n (suc st.built) x.0
            ])
        go (st', false) (u', _) rest = u'
        go (st', true) (u', count) rest = rest st' (count refl) u'

    -- Over a stack-like backing a construction that fails, at whatever class and for whatever reason,
    -- leaves the backing as it found it: every region that it took has gone back.
    pub with_class_sizes_restores :
        (classes : ℕ) (backing : B)
        → (with_class_sizes w r al classes backing class_sizes slots).1 ≡ none
        → (with_class_sizes w r al classes backing class_sizes slots).0 ≡ backing
    unfolding with_class_sizes undo
    with_class_sizes_restores classes backing e =
        let st : Built B =
          build_classes w r al class_sizes slots classes 0 (no_classes w r al backing) in
        let u : undo w r al st.slabs st.class_layouts st.built st.backing ≡ backing =
          build_classes-Undoes classes 0 backing (no_classes w r al backing) refl refl in
        elim (Bool-cases (st.built == classes)) [
          | inr partial ↦ ground (arith, partial, u)
          | inl all ↦
              let u' : undo w r al st.slabs st.class_layouts classes st.backing ≡ backing =
                ap (λ (t : ℕ). undo w r al st.slabs st.class_layouts t st.backing)
                  (sym ((==_iff st.built classes).0 all))
                ∙ u in
              ground (arith, e, all, u')
        ]
