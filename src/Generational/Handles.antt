-- ===== src/Generational/Handles.antt =====
-- What a handle reads after an insertion.
use mathlib.Core.Path.{subst₂}
use forge_alloc.Base.{
  ℕ, ◌+◌, ◌<◌, ◌≡◌, ◌≢◌, refl, sym, ap, ◌∙◌, arith, inl, inr, Bool, false, Option, none, some, leb,
  ◌==◌, ==_iff, Bool-cases, Option-cases, if◌then◌else◌,
}
use forge_alloc.Generational.{
  Handle, SlotState, GenerationalSlot, GenerationalSlab, write_slot, value_of, check_head, fill,
  pop_slot, insert_at, insert, get,
}

-- What a handle reads in a slot.
abbrev pub seen : {T : Type 0} → ℕ → GenerationalSlot T → Handle → Option T
seen capacity slot h =
    if leb capacity h.index
    then none
    else if slot.generation == h.generation
    then value_of slot.state
    else none

module _ {T : Type 0} where
  pub seen_live :
      (capacity : ℕ) (slot : GenerationalSlot T) (h : Handle)
      → h.index < capacity
      → slot.generation ≡ h.generation
      → seen capacity slot h ≡ value_of slot.state
  seen_live capacity slot h lt e = ground (arith, lt, e)

  pub seen_stale :
      (capacity : ℕ) (slot : GenerationalSlot T) (h : Handle)
      → slot.generation ≢ h.generation
      → seen capacity slot h ≡ none
  seen_stale capacity slot h ne = ground (arith, ne)

module _ {T B : Type 0} where
  pub get-seen :
      (s : GenerationalSlab T B) (h : Handle) → get s h ≡ seen s.capacity (s.slots h.index) h
  unfolding get
  get-seen s h = refl

  pub slot_written :
      (s : GenerationalSlab T B) (idx : ℕ) (slot : GenerationalSlot T)
      → (write_slot s idx slot).slots idx ≡ slot
  slot_written s idx slot =
      ap (λ (b : Bool). if b then slot else s.slots idx) ((==_iff idx idx).1 refl)

  pub slot_kept :
      (s : GenerationalSlab T B) (idx : ℕ) (slot : GenerationalSlot T) (j : ℕ)
      → j ≢ idx
      → (write_slot s idx slot).slots j ≡ s.slots j
  slot_kept s idx slot j ne =
      let other : j == idx ≡ false = ground (arith, ne) in
      ap (λ (b : Bool). if b then slot else s.slots j) other

  -- What a successful `insert` does: the handle reads the value, and every handle of another slot reads
  -- what it did.
  pub record Inserted (s : GenerationalSlab T B) (v : T) (s' : GenerationalSlab T B) (h : Handle)
      : Type 0 where
    pub reads : get s' h ≡ some v
    pub others : (k : Handle) → k.index ≢ h.index → get s' k ≡ get s k
    pub generation : h.generation ≡ (s.slots h.index).generation
    pub capacity : s'.capacity ≡ s.capacity

  fill-Inserted :
      (s : GenerationalSlab T B) (idx : ℕ) (v : T)
      → idx < s.capacity
      → Inserted s v
          (fill s idx v).0
          (record { index = idx; generation = (s.slots idx).generation })
  unfolding fill value_of
  fill-Inserted s idx v lt =
      let slot : GenerationalSlot T = record {
        generation = (s.slots idx).generation;
        state = SlotState.occupied v;
      } in
      let h : Handle = record { index = idx; generation = (s.slots idx).generation } in
      record {
        reads =
            get-seen (write_slot s idx slot) h
            ∙ ap (λ (x : GenerationalSlot T). seen s.capacity x h) (slot_written s idx slot)
            ∙ seen_live s.capacity slot h lt refl;
        others = λ k ne.
            get-seen (write_slot s idx slot) k
            ∙ ap (λ (x : GenerationalSlot T). seen s.capacity x k) (slot_kept s idx slot k.index ne)
            ∙ sym (get-seen s k);
        generation = refl;
        capacity = refl;
      }

  filled :
      (s : GenerationalSlab T B) (idx : ℕ) (v : T) {s' : GenerationalSlab T B} {h : Handle}
      → idx < s.capacity
      → fill s idx v ≡ (s', some h)
      → Inserted s v s' h
  unfolding fill
  filled s idx v {s'} {h} lt e =
      let hh : record { index = idx; generation = (s.slots idx).generation } ≡ h =
        ground (arith, ap (λ o. o.1) e) in
      subst₂ (Inserted s v) (ap (λ o. o.0) e) hh (fill-Inserted s idx v lt)

  pop_slot-Inserted :
      (s : GenerationalSlab T B) (idx : ℕ) (state : SlotState T) (v : T) {s' : GenerationalSlab T B}
      {h : Handle}
      → idx < s.capacity
      → pop_slot s idx state v ≡ (s', some h)
      → Inserted s v s' h
  unfolding pop_slot get
  pop_slot-Inserted s idx (SlotState.free next) v lt e =
      let i = filled (record s { free_head = next }) idx v lt e in
      record {
        reads = i.reads;
        others = i.others;
        generation = i.generation;
        capacity = i.capacity;
      }
  pop_slot-Inserted s idx (SlotState.occupied u) v lt e = absurd (ground (arith, ap (λ o. o.1) e))

  insert_at-Inserted :
      (s : GenerationalSlab T B) (head : Option ℕ) (v : T) {s' : GenerationalSlab T B} {h : Handle}
      → ((idx : ℕ) → head ≡ some idx → idx < s.capacity)
      → insert_at s head v ≡ (s', some h)
      → Inserted s v s' h
  unfolding insert_at get
  insert_at-Inserted s (some idx) v ok e =
      pop_slot-Inserted s idx (s.slots idx).state v (ok idx refl) e
  insert_at-Inserted s none v ok e = elim (Bool-cases (leb s.capacity s.len)) [
    | inl full ↦ absurd (ground (arith, ap (λ o. o.1) e, full))
    | inr room ↦
        let i =
          filled (record s { len = s.len + 1 }) s.len v (ground (arith, room)) (rw room at e) in
        record {
          reads = i.reads;
          others = i.others;
          generation = i.generation;
          capacity = i.capacity;
        }
  ]

  check_head-range :
      (s : GenerationalSlab T B) (idx : ℕ)
      → (check_head s).free_head ≡ some idx
      → idx < (check_head s).capacity
  unfolding check_head
  check_head-range s idx e = elim (Option-cases s.free_head) [
    | inl empty ↦ absurd (ground (arith, e, empty))
    | inr (head, at) ↦ elim (Bool-cases (leb s.capacity head)) [
      | inl wild ↦ absurd (ground (arith, e, at, wild))
      | inr near ↦ ground (arith, e, at, near)
    ]
  ]

  check_head-get : (s : GenerationalSlab T B) (k : Handle) → get (check_head s) k ≡ get s k
  unfolding check_head get
  check_head-get s k = elim (Option-cases s.free_head) [
    | inl empty ↦ rw empty refl
    | inr (head, at) ↦ elim (Bool-cases (leb s.capacity head)) [
      | inl wild ↦ rw (at, wild) refl
      | inr near ↦ rw (at, near) refl
    ]
  ]

  check_head-slots : (s : GenerationalSlab T B) (i : ℕ) → (check_head s).slots i ≡ s.slots i
  unfolding check_head
  check_head-slots s i = elim (Option-cases s.free_head) [
    | inl empty ↦ rw empty refl
    | inr (head, at) ↦ elim (Bool-cases (leb s.capacity head)) [
      | inl wild ↦ rw (at, wild) refl
      | inr near ↦ rw (at, near) refl
    ]
  ]

  check_head-capacity : (s : GenerationalSlab T B) → (check_head s).capacity ≡ s.capacity
  unfolding check_head
  check_head-capacity s = ground arith

  -- A successful `insert` returns a handle that reads the value, at the generation that the slot had, and
  -- every handle of another slot reads what it did.
  pub insert-Inserted :
      (s : GenerationalSlab T B) (v : T) {s' : GenerationalSlab T B} {h : Handle}
      → insert s v ≡ (s', some h)
      → Inserted s v s' h
  unfolding insert
  insert-Inserted s v {s'} {h} e =
      let i : Inserted (check_head s) v s' h =
        insert_at-Inserted (check_head s) (check_head s).free_head v (check_head-range s) e in
      record {
        reads = i.reads;
        others = λ k ne. i.others k ne ∙ check_head-get s k;
        generation =
            i.generation
            ∙ ap (λ (x : GenerationalSlot T). x.generation) (check_head-slots s h.index);
        capacity = i.capacity ∙ check_head-capacity s;
      }
