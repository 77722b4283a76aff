-- ===== src/SizeClassed/Untyped/Tests.antt =====
-- Four slots of eight bytes at 4096, of which slot 2 has been freed.
use forge_alloc.Base.{◌≡◌, refl, some}
use forge_alloc.SizeClassed.Untyped.{UntypedSlab, Nexts, allocate_slot}

abbrev used : UntypedSlab
used = record {
  base_offset = 0;
  block_stride = 8;
  capacity = 4;
  free_head = 3;
  next_uncarved = 3;
  corruption_events = 0;
}

abbrev nexts : Nexts
nexts i = 0

takes_slot_two : allocate_slot 64 used nexts 4096 ≡ (record used { free_head = 0 }, some 4112)
unfolding allocate_slot
takes_slot_two = refl
