-- ===== src/Slab/Honest.antt =====
-- A slab under callers who keep to the safety conditions, against its specification: a set of live
-- slots that never holds more than the capacity.
use forge_alloc.Base.{
  ℕ, ◌+◌, ◌-◌, ◌≤◌, ◌<◌, ◌≡◌, ◌≢◌, refl, sym, subst, ap, ◌∙◌, arith, inl, inr, Option, none, some,
  true, List, [], ◌∷◌, ◌++◌, All, All-map, All-insert, AllPairs, AllPairs-insert, All-append,
  length, leb, Bool-cases,
}
use forge_alloc.Core.Layout.{NonZeroLayout, TypeLayout}
use forge_alloc.Core.Range.{FixedRange, Block}
use forge_alloc.Core.Freelist.{FreelistProtection, Accepts}
use forge_alloc.Slab.{Slab, slot_align, Links, slot_block, carve, link_ok, take_slot, allocate}
use forge_alloc.Slab.Index.{IsShaped}
use forge_alloc.Slab.Chain.{Linked, Linked-le}

pub ne_flip : (i j : ℕ) → i ≢ j → j ≢ i
ne_flip i j h e = h (sym e)

module _ {B M : Type 0} (r : FixedRange B) (p : FreelistProtection M) where
  -- `live` is the slots that callers hold and `free` the list in memory: together the carved slots,
  -- each once.
  pub record Honest (s : Slab B M) (m : Links) (free live : List ℕ) : Type 0 where
    pub shaped : IsShaped s
    pub accepts : Accepts p s.mac
    pub linked : Linked p s.mac m s.free_head free
    pub below : All (λ i. i < s.next_uncarved) (free ++ live)
    pub apart : AllPairs ◌≢◌ (free ++ live)
    pub count : length free + length live ≡ s.next_uncarved
    pub carved : s.next_uncarved ≤ s.capacity

  -- What `allocate` does behind its checks of the layout, by the specification: it serves a slot that
  -- nobody holds while fewer slots than the capacity are held, and refuses only when all are.
  pub data Served (s : Slab B M) (m : Links) (live : List ℕ) (out : Slab B M × Option Block)
      : Type 0 where
    serves :
        (i : ℕ) (free : List ℕ)
        → length live < s.capacity
        → i < s.capacity
        → All (λ j. i ≢ j) live
        → out.1 ≡ some (slot_block r p s i)
        → out.0.corruption_events ≡ s.corruption_events
        → Honest out.0 m free (i ∷ live)
        → Served s m live out
    exhausted : length live ≡ s.capacity → out ≡ (s, none) → Served s m live out

  above-ne : (n : ℕ) (xs : List ℕ) → All (λ i. i < n) xs → All (λ j. n ≢ j) xs
  above-ne n xs h = All-map (λ i. i < n) (λ j. n ≢ j) xs (λ j below. omega arith) h

  carve-Served :
      (s : Slab B M) (m : Links) (live : List ℕ)
      → Honest s m [] live
      → Served s m live (carve r p s)
  unfolding carve
  carve-Served s m live h = elim (Bool-cases (leb s.capacity s.next_uncarved)) [
    | inl full ↦ exhausted (ground (arith, full, h.count, h.carved)) (ground (arith, full))
    | inr more ↦
        let room : s.next_uncarved < s.capacity = ground (arith, more) in
        rw more (
          serves s.next_uncarved [] (omega (arith, room, h.count)) room
            (above-ne s.next_uncarved live h.below) refl refl
            (record {
              shaped = record {
                wide = h.shaped.wide;
                shift = h.shaped.shift;
                small = h.shaped.small;
              };
              accepts = h.accepts;
              linked = h.linked;
              below = (
                omega arith,
                All-map (λ i. i < s.next_uncarved) (λ i. i < s.next_uncarved + 1) live
                    (λ i below. omega arith) h.below,
              );
              apart = (above-ne s.next_uncarved live h.below, h.apart);
              count = omega (arith, h.count);
              carved = omega (arith, room);
            }))
  ]

  -- The link at the head of the list is accepted.
  head_ok :
      (s : Slab B M) (m : Links) (i : ℕ) (rest live : List ℕ)
      → Honest s m (i ∷ rest) live
      → link_ok r p s m i ≡ true
  unfolding link_ok
  head_ok s m i rest live h =
      let next : (m i).next_idx ≤ s.next_uncarved =
        Linked-le p s.mac m (m i).next_idx s.next_uncarved rest
          (All-append (λ j. j < s.next_uncarved) rest live h.below.1).0 h.linked.2 in
      ground (arith, next, h.carved, h.linked.1)

  pop-eq :
      (w : ℕ) (s : Slab B M) (m : Links)
      → 1 ≤ s.free_head
      → link_ok r p s m (s.free_head - 1) ≡ true
      → take_slot r p w s m ≡ (
        record s { free_head = (m (s.free_head - 1)).next_idx },
        some (slot_block r p s (s.free_head - 1)),
      )
  unfolding take_slot
  pop-eq w s m h ok = ground (arith, ok)

  accepts-eq :
      (w : ℕ) (t : TypeLayout) (s : Slab B M) (m : Links) (l : NonZeroLayout)
      → l.align ≤ slot_align t
      → l.size ≤ s.block_stride
      → allocate r p w t s m l ≡ take_slot r p w s m
  unfolding allocate
  accepts-eq w t s m l ha hs = ground arith

  take_slot-Served :
      (w : ℕ) (s : Slab B M) (m : Links) (free live : List ℕ)
      → Honest s m free live
      → Served s m live (take_slot r p w s m)
  unfolding take_slot
  take_slot-Served w s m [] live h =
      let empty : take_slot r p w s m ≡ carve r p s = ground (arith, h.linked) in
      subst (Served s m live) (sym empty) (carve-Served s m live h)
  take_slot-Served w s m (i ∷ rest) live h =
      let idx : s.free_head - 1 ≡ i = omega (arith, h.linked.0) in
      let ok : link_ok r p s m (s.free_head - 1) ≡ true =
        ap (link_ok r p s m) idx ∙ head_ok s m i rest live h in
      let popped : take_slot r p w s m ≡ (
        record s { free_head = (m (s.free_head - 1)).next_idx },
        some (slot_block r p s (s.free_head - 1)),
      ) =
        pop-eq w s m (omega (arith, h.linked.0)) ok in
      subst (Served s m live)
        (sym (
          popped
          ∙ ap (λ (j : ℕ). (record s { free_head = (m j).next_idx }, some (slot_block r p s j)))
              idx))
        (serves i rest (omega (arith, h.count, h.carved)) (omega (arith, h.below.0, h.carved))
          (All-append (λ j. i ≢ j) rest live h.apart.0).1 refl refl
          (record {
            shaped = record {
              wide = h.shaped.wide;
              shift = h.shaped.shift;
              small = h.shaped.small;
            };
            accepts = h.accepts;
            linked = h.linked.2;
            below = All-insert (λ j. j < s.next_uncarved) rest i live h.below.0 h.below.1;
            apart = AllPairs-insert ◌≢◌ ne_flip rest i live h.apart.0 h.apart.1;
            count = omega (arith, h.count);
            carved = h.carved;
          }))

  -- From an honest state `allocate` serves a request that fits the slots with a slot that nobody
  -- holds, and counts no corruption; it refuses only when every slot is held, and then changes nothing.
  pub allocate-Served :
      (w : ℕ) (t : TypeLayout) (s : Slab B M) (m : Links) (l : NonZeroLayout) (free live : List ℕ)
      → l.align ≤ slot_align t
      → l.size ≤ s.block_stride
      → Honest s m free live
      → Served s m live (allocate r p w t s m l)
  allocate-Served w t s m l free live ha hs h =
      subst (Served s m live) (sym (accepts-eq w t s m l ha hs))
        (take_slot-Served w s m free live h)
