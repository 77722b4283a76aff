-- ===== src/Slab/Run.antt =====
-- Runs of a slab: frees, writes through live slots, and any order of them with allocations.
use mathlib.Core.List.{append_assoc}
use forge_alloc.Base.{
  ℕ, suc, ◌+◌, ◌*◌, ◌≤◌, ◌<◌, ◌≡◌, ◌≢◌, refl, sym, subst, ap, ◌∙◌, arith, some, List, [], ◌∷◌, ◌++◌,
  All, All-middle, AllPairs, AllPairs-middle, All-append, length, length-append,
}
use forge_alloc.Core.Layout.{NonZeroLayout, TypeLayout}
use forge_alloc.Core.Range.{FixedRange, Block}
use forge_alloc.Core.Allocator.{Allocator}
use forge_alloc.Core.Freelist.{FreelistProtection, Accepts}
use forge_alloc.Word.Align.{IsAlign}
use forge_alloc.Slab.{
  Slab, slot_align, FreeLink, Links, write_link, slot_ptr, slot_block, slot_index, push, deallocate,
  allocate, with_protection,
}
use forge_alloc.Slab.Index.{IsShaped, slot_index_iff}
use forge_alloc.Slab.Chain.{Linked, Linked-agree}
use forge_alloc.Slab.Honest.{Honest, Served, allocate-Served, ne_flip}
use forge_alloc.Slab.Make.{Supplies, Made, with_protection-Made}

write_link_ne :
    (m : Links) (idx : ℕ) (link : FreeLink) (xs : List ℕ)
    → All (λ i. idx ≢ i) xs
    → All (λ i. write_link m idx link i ≡ m i) xs
write_link_ne m idx link [] h = tt
write_link_ne m idx link (x ∷ xs) h = (ground (arith, h.0), write_link_ne m idx link xs h.1)

module _ {B M : Type 0} (r : FixedRange B) (p : FreelistProtection M) where
  free-eq :
      (s : Slab B M) (m : Links) (i : ℕ) (l : NonZeroLayout)
      → IsShaped s
      → i < s.capacity
      → deallocate r p s m (slot_ptr r s i) l ≡ push r p s m i
  unfolding deallocate
  free-eq s m i l h lt =
      let found : slot_index r s (slot_ptr r s i) ≡ some i =
        (slot_index_iff r s h (slot_ptr r s i) i).1 (lt, refl) in
      ground (arith, found)

  push-Honest :
      (s : Slab B M) (m : Links) (free live : List ℕ) (i : ℕ)
      → IsShaped s
      → Accepts p s.mac
      → Linked p s.mac m s.free_head free
      → All (λ j. j < s.next_uncarved) (i ∷ free ++ live)
      → AllPairs ◌≢◌ (i ∷ free ++ live)
      → suc (length free) + length live ≡ s.next_uncarved
      → s.next_uncarved ≤ s.capacity
      → Honest r p (push r p s m i).0 (push r p s m i).1 (i ∷ free) live
  unfolding push
  push-Honest s m free live i shaped accepts linked below apart count carved =
      let link : FreeLink = record { next_idx = s.free_head; mac = p.sign s.mac s.free_head i } in
      let wrote : write_link m i link i ≡ link = ground arith in
      record {
        shaped = record { wide = shaped.wide; shift = shaped.shift; small = shaped.small };
        accepts = accepts;
        linked = rw wrote (
          refl,
          accepts s.free_head i,
          Linked-agree p s.mac m (write_link m i link) s.free_head free
              (write_link_ne m i link free (All-append (λ j. i ≢ j) free live apart.0).0) linked,
        );
        below = below;
        apart = apart;
        count = count;
        carved = carved;
      }

  -- From an honest state a free of a held slot gives it back and leaves an honest state: the others stay held, and the slot heads the free list.
  pub deallocate-Honest :
      (s : Slab B M) (m : Links) (free before : List ℕ) (i : ℕ) (after : List ℕ) (l : NonZeroLayout)
      → Honest r p s m free (before ++ i ∷ after)
      → let out = deallocate r p s m (slot_ptr r s i) l in
        Honest r p out.0 out.1 (i ∷ free) (before ++ after)
  deallocate-Honest s m free before i after l h =
      let regroup : (xs : List ℕ) → (free ++ before) ++ xs ≡ free ++ (before ++ xs) =
        append_assoc free before in
      let (lt, rest) =
        All-middle (λ j. j < s.next_uncarved) (free ++ before) i after
          (subst (All (λ j. j < s.next_uncarved)) (sym (regroup (i ∷ after))) h.below) in
      let (others, apart) =
        AllPairs-middle ◌≢◌ ne_flip (free ++ before) i after
          (subst (AllPairs ◌≢◌) (sym (regroup (i ∷ after))) h.apart) in
      subst (λ (out : Slab B M × Links). Honest r p out.0 out.1 (i ∷ free) (before ++ after))
        (sym (free-eq s m i l h.shaped (omega (arith, lt, h.carved))))
        (push-Honest s m free (before ++ after) i h.shaped h.accepts h.linked
          (lt, subst (All (λ j. j < s.next_uncarved)) (regroup after) rest)
          (
            subst (All (λ j. i ≢ j)) (regroup after) others,
            subst (AllPairs ◌≢◌) (regroup after) apart,
          )
          (omega
            (arith, h.count, length-append {0} before (i ∷ after), length-append {0} before after))
          h.carved)

  -- A caller may write what it likes through the slots that it holds, and through no other.
  pub writes-Honest :
      (s : Slab B M) (m m' : Links) (free live : List ℕ)
      → ((i : ℕ) → All (λ j. i ≢ j) live → m' i ≡ m i)
      → Honest r p s m free live
      → Honest r p s m' free live
  writes-Honest s m m' free live same h = record {
    shaped = h.shaped;
    accepts = h.accepts;
    linked = Linked-agree p s.mac m m' s.free_head free (untouched free h.apart) h.linked;
    below = h.below;
    apart = h.apart;
    count = h.count;
    carved = h.carved;
  }
    where
      untouched : (xs : List ℕ) → AllPairs ◌≢◌ (xs ++ live) → All (λ i. m' i ≡ m i) xs
      untouched [] a = tt
      untouched (x ∷ xs) a = (same x (All-append (λ j. x ≢ j) xs live a.0).1, untouched xs a.1)

pub record State (B M : Type 0) : Type 0 where
  pub slab : Slab B M
  pub links : Links
  pub live : List ℕ

module _ (w : ℕ) {B M : Type 0} (r : FixedRange B) (p : FreelistProtection M) (t : TypeLayout) where
  -- What callers may do: ask, free a slot that is held, write through held slots.
  pub data Step (x y : State B M) : Type 0 where
    allocates :
        (l : NonZeroLayout) (i : ℕ)
        → l.align ≤ slot_align t
        → l.size ≤ x.slab.block_stride
        → allocate r p w t x.slab x.links l ≡ (y.slab, some (slot_block r p x.slab i))
        → y.links ≡ x.links
        → y.live ≡ i ∷ x.live
        → Step x y
    frees :
        (before : List ℕ) (i : ℕ) (after : List ℕ) (l : NonZeroLayout)
        → x.live ≡ before ++ i ∷ after
        → deallocate r p x.slab x.links (slot_ptr r x.slab i) l ≡ (y.slab, y.links)
        → y.live ≡ before ++ after
        → Step x y
    writes :
        ((i : ℕ) → All (λ j. i ≢ j) x.live → y.links i ≡ x.links i)
        → y.slab ≡ x.slab
        → y.live ≡ x.live
        → Step x y

  pub data Reach (x : State B M) : State B M → Type 0 where
    here : Reach x x
    next : {y z : State B M} → Reach x y → Step y z → Reach x z

  -- An honest state in which no corruption was ever counted.
  pub record Sound (x : State B M) : Type 0 where
    pub free : List ℕ
    pub honest : Honest r p x.slab x.links free x.live
    pub quiet : x.slab.corruption_events ≡ 0

  slot_ptr-injective :
      (s : Slab B M) (i j : ℕ)
      → 8 ≤ s.block_stride
      → slot_block r p s i ≡ slot_block r p s j
      → i ≡ j
  unfolding slot_block slot_ptr
  slot_ptr-injective s i j wide e =
      same_product s.block_stride i j (omega (arith, wide))
        (omega (arith, ap (λ (b : Block). b.address) e))
    where
      same_product : (n a b : ℕ) → 1 ≤ n → a * n ≡ b * n → a ≡ b
      same_product n a b h q = grind arith

  events-deallocate :
      (s : Slab B M) (m : Links) (ptr : ℕ) (l : NonZeroLayout)
      → (deallocate r p s m ptr l).0.corruption_events ≡ s.corruption_events
  unfolding deallocate push
  events-deallocate s m ptr l = ground arith

  allocates-Sound :
      (x y : State B M) (l : NonZeroLayout) (i : ℕ)
      → l.align ≤ slot_align t
      → l.size ≤ x.slab.block_stride
      → allocate r p w t x.slab x.links l ≡ (y.slab, some (slot_block r p x.slab i))
      → y.links ≡ x.links
      → y.live ≡ i ∷ x.live
      → Sound x
      → Sound y
  allocates-Sound x y l i ha hs e links live h =
      go (allocate-Served r p w t x.slab x.links l h.free x.live ha hs h.honest)
    where
      go : Served r p x.slab x.links x.live (allocate r p w t x.slab x.links l) → Sound y
      go (Served.exhausted full refused) = absurd (ground (arith, e, refused))
      go (Served.serves j free room lt fresh got events honest) =
          let block : slot_block r p x.slab i ≡ slot_block r p x.slab j = ground (arith, e, got) in
          let same : i ≡ j = slot_ptr-injective x.slab i j h.honest.shaped.wide block in
          let slab : y.slab ≡ (allocate r p w t x.slab x.links l).0 = ground (arith, e) in
          record {
            free = free;
            honest = rw (slab, links, live, same) honest;
            quiet = rw slab (events ∙ h.quiet);
          }

  pub Step-Sound : (x y : State B M) → Step x y → Sound x → Sound y
  Step-Sound x y (allocates l i ha hs e links live) h = allocates-Sound x y l i ha hs e links live h
  Step-Sound x y (frees before i after l was e live) h =
      let honest : Honest r p y.slab y.links (i ∷ h.free) (before ++ after) =
        subst (λ (out : Slab B M × Links). Honest r p out.0 out.1 (i ∷ h.free) (before ++ after)) e
          (deallocate-Honest r p x.slab x.links h.free before i after l
            (subst (Honest r p x.slab x.links h.free) was h.honest)) in
      record {
        free = i ∷ h.free;
        honest = rw live honest;
        quiet =
            sym (ap (λ (out : Slab B M × Links). out.0.corruption_events) e)
            ∙ events-deallocate x.slab x.links (slot_ptr r x.slab i) l
            ∙ h.quiet;
      }
  Step-Sound x y (writes same slab live) h = record {
    free = h.free;
    honest = rw (slab, live) (writes-Honest r p x.slab x.links y.links h.free x.live same h.honest);
    quiet = rw slab h.quiet;
  }

  Reach-Sound : {x y : State B M} → Sound x → Reach x y → Sound y
  Reach-Sound h here = h
  Reach-Sound h (next {y = y} {z = z} q st) = Step-Sound y z st (Reach-Sound h q)

  -- Over a backing that keeps its contract, and under a policy that accepts what it signs, a slab fresh
  -- from `with_protection` stays sound over every run of allocations, frees of held
  -- slots and writes through held slots: no slot is held twice, the free list in memory stays intact
  -- and verifies, and no corruption is ever counted.
  pub with_protection-Reach-Sound :
      (al : Allocator B) (capacity : ℕ) (backing : B) (mac : M) (s : Slab B M) (m : Links)
      {y : State B M}
      → 2 < w
      → IsAlign w t.align_of
      → Supplies w r al backing
      → ((key : M) → Accepts p key)
      → with_protection w r al t capacity backing mac ≡ some s
      → Reach (record { slab = s; links = m; live = [] }) y
      → Sound y
  with_protection-Reach-Sound al capacity backing mac s m wide ta law accepts e q =
      let made : Made w r al t capacity s =
        with_protection-Made w r al t wide ta capacity backing mac law e in
      Reach-Sound
        (record {
          free = [];
          honest = record {
            shaped = made.shaped;
            accepts = accepts s.mac;
            linked = made.empty.0;
            below = tt;
            apart = tt;
            count = omega (arith, made.empty.1);
            carved = omega (arith, made.empty.1);
          };
          quiet = made.empty.2;
        })
        q
