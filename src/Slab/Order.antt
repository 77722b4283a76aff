-- ===== src/Slab/Order.antt =====
-- The order in which slots come back, the double free included.
use forge_alloc.Base.{ℕ, ◌+◌, ◌≤◌, ◌<◌, ◌≡◌, refl, sym, ap, ◌∙◌, arith, some}
use forge_alloc.Core.Layout.{NonZeroLayout, TypeLayout}
use forge_alloc.Core.Range.{FixedRange}
use forge_alloc.Core.Freelist.{FreelistProtection, Accepts}
use forge_alloc.Slab.{
  Slab, base_ptr, slot_align, Links, slot_ptr, slot_block, slot_index, push, deallocate, allocate,
}
use forge_alloc.Slab.Index.{IsShaped, slot_index_iff}

module _ {B M : Type 0} (r : FixedRange B) (p : FreelistProtection M) where
  found :
      (s : Slab B M) (i : ℕ)
      → IsShaped s
      → i < s.capacity
      → slot_index r s (slot_ptr r s i) ≡ some i
  found s i h lt = (slot_index_iff r s h (slot_ptr r s i) i).1 (lt, refl)

  -- The slab that a free of slot `i` leaves, and its memory.
  freed :
      (s : Slab B M) (m : Links) (i : ℕ) (l : NonZeroLayout)
      → IsShaped s
      → i < s.capacity
      → deallocate r p s m (slot_ptr r s i) l ≡ push r p s m i
  unfolding deallocate
  freed s m i l h lt = ground (arith, found s i h lt)

  pop_pushed :
      (w : ℕ) (t : TypeLayout) (s : Slab B M) (m : Links) (i : ℕ) (l : NonZeroLayout)
      → l.align ≤ slot_align t
      → l.size ≤ s.block_stride
      → s.free_head ≤ s.capacity
      → Accepts p s.mac
      → allocate r p w t (push r p s m i).0 (push r p s m i).1 l ≡ (s, some (slot_block r p s i))
  unfolding allocate push slot_ptr base_ptr
  pop_pushed w t s m i l ha hs low accepts = ground (arith, accepts s.free_head i)

  -- Under a policy that accepts what it signs, a slot that is freed is the next one served for a request
  -- that fits the slots, and the pair leaves the slab as it was.
  pub allocate-deallocate :
      (w : ℕ) (t : TypeLayout) (s : Slab B M) (m : Links) (i : ℕ) (l l' : NonZeroLayout)
      → IsShaped s
      → i < s.capacity
      → s.free_head ≤ s.capacity
      → Accepts p s.mac
      → l'.align ≤ slot_align t
      → l'.size ≤ s.block_stride
      → let out = deallocate r p s m (slot_ptr r s i) l in
        allocate r p w t out.0 out.1 l' ≡ (s, some (slot_block r p s i))
  allocate-deallocate w t s m i l l' h lt low accepts ha hs =
      rw (freed s m i l h lt) (pop_pushed w t s m i l' ha hs low accepts)

  twice_pushed :
      (w : ℕ) (t : TypeLayout) (s : Slab B M) (m : Links) (i : ℕ) (l : NonZeroLayout)
      → l.align ≤ slot_align t
      → l.size ≤ s.block_stride
      → i < s.capacity
      → Accepts p s.mac
      → let one = push r p s m i in
        let two = push r p one.0 one.1 i in
        allocate r p w t two.0 two.1 l ≡ (two.0, some (slot_block r p s i))
  unfolding allocate push slot_ptr base_ptr
  twice_pushed w t s m i l ha hs lt accepts = ground (arith, accepts (i + 1) i)

  slot_ptr-push :
      (s : Slab B M) (m : Links) (i : ℕ) → slot_ptr r (push r p s m i).0 i ≡ slot_ptr r s i
  unfolding push slot_ptr base_ptr
  slot_ptr-push s m i = refl

  push-IsShaped : (s : Slab B M) (m : Links) (i : ℕ) → IsShaped s → IsShaped (push r p s m i).0
  unfolding push
  push-IsShaped s m i h = record { wide = h.wide; shift = h.shift; small = h.small }

  capacity-push : (s : Slab B M) (m : Links) (i : ℕ) → (push r p s m i).0.capacity ≡ s.capacity
  unfolding push
  capacity-push s m i = refl

  freed_again :
      (s : Slab B M) (m : Links) (i : ℕ) (l : NonZeroLayout)
      → IsShaped s
      → i < s.capacity
      → let one = push r p s m i in
        deallocate r p one.0 one.1 (slot_ptr r s i) l ≡ push r p one.0 one.1 i
  freed_again s m i l h lt =
      ap (λ (x : ℕ). deallocate r p (push r p s m i).0 (push r p s m i).1 x l)
        (sym (slot_ptr-push s m i))
      ∙ freed (push r p s m i).0 (push r p s m i).1 i l (push-IsShaped s m i h)
          (omega (arith, lt, capacity-push s m i))

  -- A double free is not detected by any policy that accepts what it signs: the next two requests
  -- that fit the slots are both served with that same slot.
  pub double_free_aliases :
      (w : ℕ) (t : TypeLayout) (s : Slab B M) (m : Links) (i : ℕ) (l : NonZeroLayout)
      → IsShaped s
      → i < s.capacity
      → Accepts p s.mac
      → l.align ≤ slot_align t
      → l.size ≤ s.block_stride
      → let one = deallocate r p s m (slot_ptr r s i) l in
        let two = deallocate r p one.0 one.1 (slot_ptr r s i) l in
        let first = allocate r p w t two.0 two.1 l in
        let second = allocate r p w t first.0 two.1 l in
        (first.1 ≡ some (slot_block r p s i)) × (second.1 ≡ some (slot_block r p s i))
  double_free_aliases w t s m i l h lt accepts ha hs =
      let again : allocate r p w t two.0 two.1 l ≡ (two.0, some (slot_block r p s i)) =
        twice_pushed w t s m i l ha hs lt accepts in
      let one-eq : deallocate r p s m (slot_ptr r s i) l ≡ one = freed s m i l h lt in
      let two-eq : deallocate r p one.0 one.1 (slot_ptr r s i) l ≡ two = refreed in
      rw (one-eq, two-eq, again) (refl, ap (λ out. out.1) again)
    where
      one : Slab B M × Links
      one = push r p s m i

      two : Slab B M × Links
      two = push r p one.0 one.1 i

      refreed : deallocate r p one.0 one.1 (slot_ptr r s i) l ≡ two
      refreed = freed_again s m i l h lt
