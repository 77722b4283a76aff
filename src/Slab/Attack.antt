-- ===== src/Slab/Attack.antt =====
-- A slab whose free links are overwritten, and the order in which slots come back.
use forge_alloc.Base.{
  ℕ, ◌+◌, ◌-◌, ◌%◌, ◌^◌, ◌≤◌, ◌<◌, ◌≡◌, ◌≢◌, ◌⊎◌, refl, sym, subst, arith, inl, inr, Option, none,
  some, true, false, leb, ltb, ◌==◌, Bool-cases,
}
use forge_alloc.Core.Layout.{NonZeroLayout, TypeLayout}
use forge_alloc.Core.Range.{FixedRange, Block}
use forge_alloc.Core.Freelist.{FreelistProtection}
use forge_alloc.Slab.{
  Slab, base_ptr, slot_align, Links, slot_ptr, slot_block, carve, link_ok, take_slot, allocate,
}
use forge_alloc.Slab.Index.{IsShaped}

module _ {B M : Type 0} (r : FixedRange B) (p : FreelistProtection M) where
  -- The head and the carving index are in range.
  pub record IsBounded (s : Slab B M) : Type 0 where
    pub shaped : IsShaped s
    pub head : s.free_head ≤ s.capacity
    pub carved : s.next_uncarved ≤ s.capacity

  -- A slot of the slab, as a block.
  pub data IsSlot (s : Slab B M) (b : Block) : Type 0 where
    slot : (i : ℕ) → i < s.capacity → b ≡ slot_block r p s i → IsSlot s b

  -- The parts of a slab that fix where its slots are.
  pub record SameSlots (s s' : Slab B M) : Type 0 where
    pub backing : s'.backing ≡ s.backing
    pub base_offset : s'.base_offset ≡ s.base_offset
    pub block_stride : s'.block_stride ≡ s.block_stride
    pub capacity : s'.capacity ≡ s.capacity

  -- What an operation may do to a bounded slab and return.
  pub record Contained (s : Slab B M) (out : Slab B M × Option Block) : Type 0 where
    pub bounded : IsBounded out.0
    pub same : SameSlots s out.0
    pub inside : (b : Block) → out.1 ≡ some b → IsSlot s b

  carve-Contained : (s : Slab B M) → IsBounded s → Contained s (carve r p s)
  unfolding carve
  carve-Contained s h = elim (Bool-cases (leb s.capacity s.next_uncarved)) [
    | inl full ↦ rw full (record {
      bounded = h;
      same = record { backing = refl; base_offset = refl; block_stride = refl; capacity = refl };
      inside = λ b e. cc;
    })
    | inr more ↦
        let room : s.next_uncarved < s.capacity = ground (arith, more) in
        rw more (record {
          bounded = record {
            shaped = record {
              wide = h.shaped.wide;
              shift = h.shaped.shift;
              small = h.shaped.small;
            };
            head = h.head;
            carved = omega (arith, room);
          };
          same = record {
            backing = refl;
            base_offset = refl;
            block_stride = refl;
            capacity = refl;
          };
          inside = λ b e. IsSlot.slot s.next_uncarved room (cc);
        })
  ]

  -- The state in which a rejected link leaves the slab before it carves.
  disarmed : ℕ → Slab B M → Slab B M
  disarmed w s = record s { free_head = 0; corruption_events = (s.corruption_events + 1) % 2 ^ w }

  slot_block-disarmed :
      (w : ℕ) (s : Slab B M) (i : ℕ) → slot_block r p (disarmed w s) i ≡ slot_block r p s i
  unfolding disarmed slot_block slot_ptr base_ptr
  slot_block-disarmed w s i = refl

  disarmed-Contained : (w : ℕ) (s : Slab B M) → IsBounded s → Contained s (carve r p (disarmed w s))
  unfolding disarmed slot_block slot_ptr base_ptr
  disarmed-Contained w s h =
      let c : Contained (disarmed w s) (carve r p (disarmed w s)) =
        carve-Contained (disarmed w s) (record {
          shaped = record { wide = h.shaped.wide; shift = h.shaped.shift; small = h.shaped.small };
          head = omega arith;
          carved = h.carved;
        }) in
      record {
        bounded = c.bounded;
        same = record {
          backing = c.same.backing;
          base_offset = c.same.base_offset;
          block_stride = c.same.block_stride;
          capacity = c.same.capacity;
        };
        inside = λ b e. move b (c.inside b e);
      }
    where
      move : (b : Block) → IsSlot (disarmed w s) b → IsSlot s b
      move b (IsSlot.slot i lt e) = IsSlot.slot i lt e

  take_slot-rejected :
      (w : ℕ) (s : Slab B M) (m : Links)
      → s.free_head ≢ 0
      → link_ok r p s m (s.free_head - 1) ≡ false
      → take_slot r p w s m ≡ carve r p (disarmed w s)
  unfolding take_slot disarmed
  take_slot-rejected w s m h bad = ground (arith, bad)

  take_slot-Contained :
      (w : ℕ) (s : Slab B M) (m : Links) → IsBounded s → Contained s (take_slot r p w s m)
  unfolding take_slot
  take_slot-Contained w s m h = elim (Bool-cases (s.free_head == 0)) [
    | inl empty ↦ rw empty (carve-Contained s h)
    | inr listed ↦ elim (Bool-cases (link_ok r p s m (s.free_head - 1))) [
      | inl ok ↦
          let low : (m (s.free_head - 1)).next_idx ≤ s.capacity =
            link_ok-le s m (s.free_head - 1) ok in
          rw (listed, ok)
            (record {
              bounded = record {
                shaped = record {
                  wide = h.shaped.wide;
                  shift = h.shaped.shift;
                  small = h.shaped.small;
                };
                head = low;
                carved = h.carved;
              };
              same = record {
                backing = refl;
                base_offset = refl;
                block_stride = refl;
                capacity = refl;
              };
              inside = λ b e. IsSlot.slot (s.free_head - 1) (ground (arith, listed, h.head)) (cc);
            })
      | inr bad ↦
          subst (Contained s) (sym (take_slot-rejected w s m (ground (arith, listed)) bad))
            (disarmed-Contained w s h)
    ]
  ]
    where
      link_ok-le :
          (s₁ : Slab B M) (m₁ : Links) (i : ℕ)
          → link_ok r p s₁ m₁ i ≡ true
          → (m₁ i).next_idx ≤ s₁.capacity
      link_ok-le s₁ m₁ i ok = ground arith

  -- Whatever memory holds at a call, forged links included, `allocate` on a slab whose head and carving
  -- index are in range returns a slot of the slab or
  -- refuses, keeps the head and the carving index in range, and moves no slot.
  pub allocate-Contained :
      (w : ℕ) (t : TypeLayout) (s : Slab B M) (m : Links) (l : NonZeroLayout)
      → IsBounded s
      → Contained s (allocate r p w t s m l)
  unfolding allocate
  allocate-Contained w t s m l h = elim (Bool-cases (ltb (slot_align t) l.align)) [
    | inl strict ↦ rw strict refused
    | inr aligned ↦ elim (Bool-cases (ltb s.block_stride l.size)) [
      | inl large ↦ rw (aligned, large) refused
      | inr fits ↦ rw (aligned, fits) (take_slot-Contained w s m h)
    ]
  ]
    where
      refused : Contained s (s, none)
      refused = record {
        bounded = h;
        same = record { backing = refl; base_offset = refl; block_stride = refl; capacity = refl };
        inside = λ b e. cc;
      }

  -- For a request that fits the slots, a link at the head that does not verify, or that points past the last slot, costs the whole free
  -- list: the event is counted, the list is dropped, and the request is served by the next slot that
  -- was never carved, or refused if there is none.
  pub allocate_rejects :
      (w : ℕ) (t : TypeLayout) (s : Slab B M) (m : Links) (l : NonZeroLayout)
      → l.align ≤ slot_align t
      → l.size ≤ s.block_stride
      → s.free_head ≢ 0
      → (p.verify s.mac (m (s.free_head - 1)).next_idx (m (s.free_head - 1)).mac (s.free_head - 1)
          ≡ false)
        ⊎ (s.capacity < (m (s.free_head - 1)).next_idx)
      → let out = allocate r p w t s m l in
        (out.0.free_head ≡ 0)
        × (out.0.corruption_events ≡ (s.corruption_events + 1) % 2 ^ w)
        × (s.next_uncarved < s.capacity
            → (out.1 ≡ some (slot_block r p s s.next_uncarved))
              × (out.0.next_uncarved ≡ s.next_uncarved + 1))
        × (s.capacity ≤ s.next_uncarved → out.1 ≡ none)
  unfolding allocate carve disarmed
  allocate_rejects w t s m l ha hs h bad =
      let rejected : link_ok r p s m (s.free_head - 1) ≡ false = elim bad [
        | inl forged ↦ link_bad s m (s.free_head - 1) (inl forged)
        | inr far ↦ link_bad s m (s.free_head - 1) (inr far)
      ] in
      let e : take_slot r p w s m ≡ carve r p (disarmed w s) =
        take_slot-rejected w s m h rejected in
      (
        ground (arith, e),
        ground (arith, e),
        λ room. (ground (arith, e, slot_block-disarmed w s s.next_uncarved), ground (arith, e)),
        λ full. ground (arith, e),
      )
    where
      link_bad :
          (s₁ : Slab B M) (m₁ : Links) (i : ℕ)
          → (p.verify s₁.mac (m₁ i).next_idx (m₁ i).mac i ≡ false) ⊎ (s₁.capacity < (m₁ i).next_idx)
          → link_ok r p s₁ m₁ i ≡ false
      link_bad s₁ m₁ i b = ground arith
