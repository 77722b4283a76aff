-- ===== src/SizeClassed/Reuse.antt =====
-- A slot that is freed is the next one of its class.
use native.Mathlib.Nat.{mul-div_cancel, mul-mod_left}
use forge_alloc.Base.{
  ℕ, ◌+◌, ◌-◌, ◌*◌, ◌/◌, ◌%◌, ◌^◌, ◌≤◌, ◌<◌, ◌≡◌, ◌≢◌, refl, sym, ap, subst, ◌∙◌, inl, inr, arith,
  Option, some, List, [], ◌∷◌, All, Bool-cases, ◌==◌, ==_iff,
}
use forge_alloc.Core.Layout.{NonZeroLayout}
use forge_alloc.Core.Range.{FixedRange, Block}
use forge_alloc.Core.Allocator.{Allocator}
use forge_alloc.SizeClassed.Untyped.{
  UntypedSlab, Nexts, write_next, slot_ptr, slot_index, allocate_slot, free_slot,
}
use forge_alloc.SizeClassed.{SizeClassed, set, route_dealloc, deallocate, allocate, pick_class}
use forge_alloc.SizeClassed.Route.{Placed, route_dealloc-slot}

slot_index-slot_ptr :
    (u : UntypedSlab) (base j : ℕ)
    → j < u.capacity
    → u.capacity < 2 ^ 32
    → 1 ≤ u.block_stride
    → slot_index u base (slot_ptr u base j) ≡ some j
unfolding slot_index slot_ptr
slot_index-slot_ptr u base j lt small wide =
    let here : base + u.base_offset + j * u.block_stride - (base + u.base_offset)
        ≡ j * u.block_stride =
      omega arith in
    let index : (base + u.base_offset + j * u.block_stride - (base + u.base_offset))
          / u.block_stride
        ≡ j =
      ap (λ (t : ℕ). t / u.block_stride) here ∙ mul-div_cancel j wide in
    let rest : (base + u.base_offset + j * u.block_stride - (base + u.base_offset)) % u.block_stride
        ≡ 0 =
      ap (λ (t : ℕ). t % u.block_stride) here ∙ mul-mod_left j u.block_stride in
    ground (arith, index, rest)

module _ (w : ℕ) (u : UntypedSlab) (m : Nexts) (base j : ℕ) (lt : j < u.capacity)
    (small : u.capacity < 2 ^ 32) (wide : 1 ≤ u.block_stride)
    (head : u.free_head ≤ u.capacity) where
  freed :
      free_slot w u m base (slot_ptr u base j)
      ≡ (record u { free_head = j + 1 }, write_next m j u.free_head)
  unfolding free_slot
  freed = ground (arith, slot_index-slot_ptr u base j lt small wide)

  -- The slot comes back, and the slab is as it was.
  taken :
      allocate_slot w (record u { free_head = j + 1 }) (write_next m j u.free_head) base
      ≡ (u, some (slot_ptr u base j))
  unfolding allocate_slot slot_ptr
  taken =
      let back : j + 1 - 1 ≡ j = omega arith in
      let next : write_next m j u.free_head (j + 1 - 1) ≡ u.free_head =
        ap (write_next m j u.free_head) back ∙ ground arith in
      ground (arith, next, head, ap (λ (t : ℕ). t * u.block_stride) back)

set_self {ℓ} : {A : Type ℓ} (f : ℕ → A) (i : ℕ) (v : A) → set f i v i ≡ v
set_self f i v = ground (arith, (==_iff i i).1 refl)

-- A write of the value that was there, through another write.
set_back {ℓ} : {A : Type ℓ} (f : ℕ → A) (i : ℕ) (v : A) (k : ℕ) → set (set f i v) i (f i) k ≡ f k
set_back f i v k = elim (Bool-cases (k == i)) [
  | inl here ↦ rw here (ap f (sym ((==_iff k i).0 here)))
  | inr other ↦ rw other refl
]

set_other {ℓ} : {A : Type ℓ} (f : ℕ → A) (i : ℕ) (v : A) (k : ℕ) → k ≢ i → set f i v k ≡ f k
set_other f i v k other = elim (Bool-cases (k == i)) [
  | inl here ↦ absurd (other ((==_iff k i).0 here))
  | inr away ↦ rw away refl
]

-- The free list in memory: the slots in the order in which the links lead to them from a head.
pub data Chain (m : Nexts) : ℕ → List ℕ → Type 0 where
  end : Chain m 0 []
  link : {k : ℕ} {ks : List ℕ} → Chain m (m k) ks → Chain m (k + 1) (k ∷ ks)

other_link : (m : Nexts) (j v k : ℕ) → k ≢ j → write_next m j v k ≡ m k
other_link m j v k other = elim (Bool-cases (k == j)) [
  | inl here ↦ absurd (other ((==_iff k j).0 here))
  | inr away ↦ rw away refl
]

-- A link that is written in a slot off the list leaves the list alone.
Chain-write_next :
    (m : Nexts) (j v : ℕ) (ks : List ℕ) {head : ℕ}
    → Chain m head ks
    → All (λ k. k ≢ j) ks
    → Chain (write_next m j v) head ks
Chain-write_next m j v [] Chain.end h = Chain.end
Chain-write_next m j v (k ∷ ks) (Chain.link rest) h = Chain.link (
    subst (λ (n : ℕ). Chain (write_next m j v) n ks) (sym (other_link m j v k h.0))
      (Chain-write_next m j v ks rest h.1))

module _ (w classes : ℕ) {B : Type 0} (r : FixedRange B) (al : Allocator B) where
  allocate-class :
      (s : SizeClassed B) (m : ℕ → Nexts) (l : NonZeroLayout) (i p : ℕ) (u : UntypedSlab)
      → pick_class w s.class_lookup l.size l.align ≡ some i
      → allocate_slot w (s.slabs i) (m i) (r.base s.backing) ≡ (u, some p)
      → allocate w classes r al s m l ≡ (
        record s { slabs = set s.slabs i u },
        some (record { address = p; length = s.class_sizes i }),
      )
  unfolding allocate
  allocate-class s m l i p u picks slot = ground (arith, picks, slot)

  deallocate-class :
      (s : SizeClassed B) (m : ℕ → Nexts) (l : NonZeroLayout) (i p : ℕ) (u : UntypedSlab)
      (n : Nexts)
      → route_dealloc w classes r al s p ≡ some i
      → free_slot w (s.slabs i) (m i) (r.base s.backing) p ≡ (u, n)
      → deallocate w classes r al s m p l ≡ (record s { slabs = set s.slabs i u }, set m i n)
  unfolding deallocate
  deallocate-class s m l i p u n routed slot = ground (arith, routed, slot)

  -- The free of a slot and the next allocation of its class, as one call after the other.
  round_trip :
      (s : SizeClassed B) (m : ℕ → Nexts) (i j : ℕ) (old l : NonZeroLayout)
      → Placed w classes r al s
      → i < classes
      → j < (s.slabs i).capacity
      → (s.slabs i).capacity < 2 ^ 32
      → 1 ≤ (s.slabs i).block_stride
      → (s.slabs i).free_head ≤ (s.slabs i).capacity
      → pick_class w s.class_lookup l.size l.align ≡ some i
      → let p = slot_ptr (s.slabs i) (r.base s.backing) j in
        let u' = record (s.slabs i) { free_head = j + 1 } in
        let s' = record s { slabs = set s.slabs i u' } in
        let m' = set m i (write_next (m i) j (s.slabs i).free_head) in
        (deallocate w classes r al s m p old ≡ (s', m'))
        × (allocate w classes r al s' m' l ≡ (
          record s' { slabs = set s'.slabs i (s.slabs i) },
          some (record { address = p; length = s.class_sizes i }),
        ))
  round_trip s m i j old l h lt slot small wide head picks =
      let u : UntypedSlab = s.slabs i in
      let base : ℕ = r.base s.backing in
      let p : ℕ = slot_ptr u base j in
      let u' : UntypedSlab = record u { free_head = j + 1 } in
      let n' : Nexts = write_next (m i) j u.free_head in
      let s' : SizeClassed B = record s { slabs = set s.slabs i u' } in
      let routed : route_dealloc w classes r al s p ≡ some i =
        (route_dealloc-slot w classes r al s h).0 i j lt slot wide in
      (
        deallocate-class s m old i p u' n' routed (freed w u (m i) base j slot small wide head),
        allocate-class s' (set m i n') l i p u picks (
            ap (λ (t : UntypedSlab). allocate_slot w t (set m i n' i) base) (set_self s.slabs i u')
            ∙ ap (λ (t : Nexts). allocate_slot w u' t base) (set_self m i n')
            ∙ taken w u (m i) base j slot small wide head),
      )

  -- What is there after a slot `j` of class `i` was freed, which left `m'`, and allocated again.
  pub record Reused (s : SizeClassed B) (m : ℕ → Nexts) (i j : ℕ) (free : List ℕ) (m' : ℕ → Nexts)
      (s'' : SizeClassed B) (got : Option Block) : Type 0 where
    pub block :
        got
        ≡ some (record {
          address = slot_ptr (s.slabs i) (r.base s.backing) j;
          length = s.class_sizes i;
        })
    pub chain : Chain (m' i) (s''.slabs i).free_head free
    pub links : (k : ℕ) → k ≢ j → m' i k ≡ m i k
    pub classes_kept : (c : ℕ) → c ≢ i → m' c ≡ m c
    pub slabs : (k : ℕ) → s''.slabs k ≡ s.slabs k
    pub backing : s''.backing ≡ s.backing

  -- In an allocator whose class regions end below the top of the address space and share no byte, a slot that
  -- is not on the free list of its class is freed, with any layout: it is the next block of its class, of
  -- the size of the class; the free list in memory then is the one before the free, slot by slot; and no
  -- link in another slot or class, no head or counter and no backing has changed. The slots have at
  -- least one byte and there are fewer than 2 ^ 32 of them, and the head of the free list is in range.
  pub class-reuses_freed :
      (s : SizeClassed B) (m : ℕ → Nexts) (i j : ℕ) (free : List ℕ) (old l : NonZeroLayout)
      → Placed w classes r al s
      → i < classes
      → j < (s.slabs i).capacity
      → (s.slabs i).capacity < 2 ^ 32
      → 1 ≤ (s.slabs i).block_stride
      → (s.slabs i).free_head ≤ (s.slabs i).capacity
      → Chain (m i) (s.slabs i).free_head free
      → All (λ k. k ≢ j) free
      → pick_class w s.class_lookup l.size l.align ≡ some i
      → let p = slot_ptr (s.slabs i) (r.base s.backing) j in
        let (s', m') = deallocate w classes r al s m p old in
        let (s'', got) = allocate w classes r al s' m' l in Reused s m i j free m' s'' got
  class-reuses_freed s m i j free old l h lt slot small wide head chain held picks =
      let u : UntypedSlab = s.slabs i in
      let u' : UntypedSlab = record u { free_head = j + 1 } in
      let n' : Nexts = write_next (m i) j u.free_head in
      let s' : SizeClassed B = record s { slabs = set s.slabs i u' } in
      let (back, again) = round_trip s m i j old l h lt slot small wide head picks in
      let same : set (set s.slabs i u') i u i ≡ u = set_back s.slabs i u' i in
      let listed : Chain (set m i n' i) (set (set s.slabs i u') i u i).free_head free =
        subst (λ (n : Nexts). Chain n (set (set s.slabs i u') i u i).free_head free)
          (sym (set_self m i n'))
          (subst (λ (v : UntypedSlab). Chain n' v.free_head free) (sym same)
            (Chain-write_next (m i) j u.free_head free chain held)) in
      subst
        (λ (x : SizeClassed B × (ℕ → Nexts)).
          Reused s m i j free x.1 (allocate w classes r al x.0 x.1 l).0
            (allocate w classes r al x.0 x.1 l).1)
        (sym back)
        (subst (λ (x : SizeClassed B × Option Block). Reused s m i j free (set m i n') x.0 x.1)
          (sym again)
          (record {
            block = refl;
            chain = listed;
            links = λ k other.
                ap (λ (n : Nexts). n k) (set_self m i n') ∙ other_link (m i) j u.free_head k other;
            classes_kept = λ c other. set_other m i n' c other;
            slabs = set_back s.slabs i u';
            backing = refl;
          }))
