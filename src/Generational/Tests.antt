-- ===== src/Generational/Tests.antt =====
-- A slab of two slots that holds the number 7 in slot 0, at its last generation of 32 bits.
use forge_alloc.Base.{ℕ, ◌-◌, ◌^◌, ◌≡◌, ◌≢◌, refl, arith, none, some}
use forge_alloc.Core.Layout.{NonZeroLayout}
use forge_alloc.Backing.Inline.{InlineBacked}
use forge_alloc.Generational.{
  Handle, SlotState, GenerationalSlab, GenerationalSlot, check_head, insert_at, fill, insert, get,
  remove, write_slot,
}
use forge_alloc.Generational.Removal.{get-remove}
use forge_alloc.Generational.Retired.{retired_reissued}

abbrev region : NonZeroLayout
region = record { size = 32; align = 8 }

abbrev old_slots : ℕ → GenerationalSlot ℕ
old_slots i = record { generation = 2 ^ 32 - 1; state = SlotState.occupied 7 }

abbrev slab : GenerationalSlab ℕ InlineBacked
slab = record {
  backing = record { storage = 4096; capacity = 64; cursor = 32 };
  slots_offset = 0;
  capacity = 2;
  free_head = none;
  len = 1;
  backing_layout = region;
  slots = old_slots;
}

abbrev fresh_slots : ℕ → GenerationalSlot ℕ
fresh_slots i = record { generation = 0; state = SlotState.free none }

abbrev fresh : GenerationalSlab ℕ InlineBacked
fresh = record slab { len = 0; slots = fresh_slots }

abbrev one_in : GenerationalSlab ℕ InlineBacked
one_in =
    write_slot (record fresh { len = 1 }) 0
      (record { generation = 0; state = SlotState.occupied 9 })

inserts_first : insert fresh 9 ≡ (one_in, some (record { index = 0; generation = 0 }))
unfolding insert check_head insert_at fill
inserts_first = refl

get-remove_example :
    (get
        (remove 32 one_in (record { index = 0; generation = 0 })).0
        (record { index = 0; generation = 0 })
      ≡ none)
    × ((k : Handle)
        → k.index ≢ 0
        → get (remove 32 one_in (record { index = 0; generation = 0 })).0 k ≡ get one_in k)
get-remove_example =
    get-remove 32 one_in (record { index = 0; generation = 0 }) (omega arith) (omega arith)

retired_reissued_example :
    let retired = remove 32 slab (record { index = 0; generation = 2 ^ 32 - 1 }) in
    let again = remove 32 retired.0 (record { index = 0; generation = 0 }) in
    (retired.1 ≡ some 7)
    × (retired.0.free_head ≡ none)
    × (again.1 ≡ none)
    × ((insert again.0 8).1 ≡ some (record { index = 0; generation = 1 }))
retired_reissued_example = retired_reissued 32 slab 0 7 8 (omega arith) (omega arith) refl
