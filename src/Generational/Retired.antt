-- ===== src/Generational/Retired.antt =====
-- A slot whose generation wrapped, and a handle from the first cycle.
use native.Mathlib.Nat.{mod-eq_of_lt, add-mod_right, zero-mod}
use forge_alloc.Base.{
  ℕ, ◌+◌, ◌-◌, ◌%◌, ◌^◌, ◌<◌, ◌≡◌, refl, ap, ◌∙◌, arith, true, false, Option, none, some, leb, ◌==◌,
  ==_iff,
}
use forge_alloc.Generational.{
  SlotState, GenerationalSlot, GenerationalSlab, wrapping_inc, write_slot, value_of, check_head,
  fill, pop_slot, insert_at, insert, vacate, remove,
}
use forge_alloc.Generational.Handles.{slot_written}

wrapping_inc_max : (g : ℕ) → 0 < 2 ^ g → wrapping_inc g (2 ^ g - 1) ≡ 0
unfolding wrapping_inc
wrapping_inc_max g pos =
    ap (λ (t : ℕ). t % 2 ^ g) (top (2 ^ g) pos) ∙ add-mod_right 0 (2 ^ g) ∙ zero-mod (2 ^ g)
  where
    top : (m : ℕ) → 0 < m → m - 1 + 1 ≡ 0 + m
    top m h = omega arith

wrapping_inc_zero : (g : ℕ) → 1 < 2 ^ g → wrapping_inc g 0 ≡ 1
unfolding wrapping_inc
wrapping_inc_zero g h = mod-eq_of_lt h

module _ {T B : Type 0} where
  -- The removal that wraps the generation, as a whole.
  remove_wraps :
      (g : ℕ) (s : GenerationalSlab T B) (idx : ℕ) (u : T)
      → 0 < 2 ^ g
      → idx < s.capacity
      → s.slots idx ≡ record { generation = 2 ^ g - 1; state = SlotState.occupied u }
      → remove g s (record { index = idx; generation = 2 ^ g - 1 })
        ≡ (write_slot s idx (record { generation = 0; state = SlotState.free none }), some u)
  unfolding remove vacate value_of
  remove_wraps g s idx u pos lt at =
      let inside : leb s.capacity idx ≡ false = ground arith in
      let same : (s.slots idx).generation == 2 ^ g - 1 ≡ true =
        (==_iff (s.slots idx).generation (2 ^ g - 1)).1
          (ap (λ (x : GenerationalSlot T). x.generation) at) in
      let wraps : wrapping_inc g (s.slots idx).generation ≡ 0 =
        ap (λ (x : GenerationalSlot T). wrapping_inc g x.generation) at ∙ wrapping_inc_max g pos in
      rw (inside, same, wraps)
        (ap
          (λ (x : GenerationalSlot T). (
            write_slot s idx (record { generation = 0; state = SlotState.free none }),
            value_of x.state,
          ))
          at)

  -- The removal of a vacant slot at its own generation.
  remove_vacant :
      (g : ℕ) (s : GenerationalSlab T B) (idx : ℕ) (next : Option ℕ)
      → 1 < 2 ^ g
      → idx < s.capacity
      → s.slots idx ≡ record { generation = 0; state = SlotState.free next }
      → remove g s (record { index = idx; generation = 0 }) ≡ (
        write_slot
            (record s { free_head = some idx })
            idx
            (record { generation = 1; state = SlotState.free s.free_head }),
        none,
      )
  unfolding remove vacate value_of
  remove_vacant g s idx next wide lt at =
      let inside : leb s.capacity idx ≡ false = ground arith in
      let same : (s.slots idx).generation == 0 ≡ true =
        (==_iff (s.slots idx).generation 0).1 (ap (λ (x : GenerationalSlot T). x.generation) at) in
      let moves : wrapping_inc g (s.slots idx).generation ≡ 1 =
        ap (λ (x : GenerationalSlot T). wrapping_inc g x.generation) at
        ∙ wrapping_inc_zero g wide in
      rw (inside, same, moves)
        (ap
          (λ (x : GenerationalSlot T). (
            write_slot (record s { free_head = some idx }) idx
                (record { generation = 1; state = SlotState.free s.free_head }),
            value_of x.state,
          ))
          at)

  -- The next insertion takes the slot at the head.
  insert_head :
      (s : GenerationalSlab T B) (idx : ℕ) (slot : GenerationalSlot T) (next : Option ℕ) (v : T)
      → idx < s.capacity
      → s.free_head ≡ some idx
      → s.slots idx ≡ slot
      → slot.state ≡ SlotState.free next
      → (insert s v).1 ≡ some (record { index = idx; generation = slot.generation })
  unfolding insert insert_at check_head pop_slot fill
  insert_head s idx slot next v lt head at vacant =
      let near : leb s.capacity idx ≡ false = ground arith in
      let state : (s.slots idx).state ≡ SlotState.free next =
        ap (λ (x : GenerationalSlot T). x.state) at ∙ vacant in
      rw (head, near, state)
        (ap (λ (x : GenerationalSlot T). some (record { index = idx; generation = x.generation }))
          at)

  -- A slot that was retired when its generation wrapped does not stay retired: a copy of the handle
  -- from its first cycle still matches the generation 0, so `remove` of that copy, which returns nothing,
  -- puts the slot back on the free list at generation 1, and the next insertion hands it out with a
  -- handle that a caller of the first cycle may still hold.
  pub retired_reissued :
      (g : ℕ) (s : GenerationalSlab T B) (idx : ℕ) (u v : T)
      → 1 < 2 ^ g
      → idx < s.capacity
      → s.slots idx ≡ record { generation = 2 ^ g - 1; state = SlotState.occupied u }
      → let retired = remove g s (record { index = idx; generation = 2 ^ g - 1 }) in
        let again = remove g retired.0 (record { index = idx; generation = 0 }) in
        (retired.1 ≡ some u)
        × (retired.0.free_head ≡ s.free_head)
        × (again.1 ≡ none)
        × ((insert again.0 v).1 ≡ some (record { index = idx; generation = 1 }))
  retired_reissued g s idx u v wide lt at =
      let first : remove g s (record { index = idx; generation = 2 ^ g - 1 }) ≡ (tomb, some u) =
        remove_wraps g s idx u (omega (arith, wide)) lt at in
      let second : remove g tomb (record { index = idx; generation = 0 }) ≡ (revived, none) =
        remove_vacant g tomb idx none wide lt
          (slot_written s idx (record { generation = 0; state = SlotState.free none })) in
      rw (first, second)
        (
          refl,
          refl,
          refl,
          insert_head revived idx (record { generation = 1; state = SlotState.free s.free_head })
              s.free_head v lt refl
              (slot_written (record tomb { free_head = some idx }) idx
                (record { generation = 1; state = SlotState.free s.free_head }))
              refl,
        )
    where
      tomb : GenerationalSlab T B
      tomb = write_slot s idx (record { generation = 0; state = SlotState.free none })

      revived : GenerationalSlab T B
      revived =
          write_slot (record tomb { free_head = some idx }) idx
            (record { generation = 1; state = SlotState.free s.free_head })
