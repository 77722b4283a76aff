-- ===== src/Backing/Locked/Tests.antt =====
-- A system that counts its mappings, and lets no page be locked.
use forge_alloc.Base.{ℕ, ◌+◌, ◌-◌, ◌≡◌, refl, false, true, none, some}
use forge_alloc.Word.Align.{align_up}
use forge_alloc.Backing.Mmap.{Platform, no_flags, System, World, MmapBacked, with_flags, drop}
use forge_alloc.Backing.Locked.{LockSystem, new, Answered, new-Answered}

abbrev counting : System ℕ
counting = record {
  last_os_error = λ s. some 12;
  map = λ s n flags. (s + 1, some 65536);
  commit = λ s p n. (s, true);
  release = λ s p n. (s, true);
  unmap = λ s p n. (s - 1, false);
}

abbrev unlockable : LockSystem ℕ
unlockable = record {
  lock = λ s p n. (s, false);
  dont_dump = λ s p n. s;
  unlock = λ s p n. (s, true);
}

abbrev at_first : World ℕ
at_first = record { system = 0; last_error = none }

abbrev page : MmapBacked ℕ
page = record {
  world = record { system = 1; last_error = none };
  ptr = 65536;
  len = 4096;
  cursor = 0;
  committed = 4096;
}

maps_page : (with_flags Platform.unix 64 4096 22 counting at_first 100 no_flags).1 ≡ some page
unfolding with_flags align_up
maps_page = refl

leaves_no_mapping :
    new Platform.unix 64 4096 22 counting unlockable at_first 100
    ≡ (record { system = 0; last_error = some 12 }, none)
unfolding new with_flags align_up drop
leaves_no_mapping = refl

new-Answered_example :
    Answered Platform.unix 64 4096 22 counting unlockable
      (with_flags Platform.unix 64 4096 22 counting at_first 100 no_flags).0
      page
      (new Platform.unix 64 4096 22 counting unlockable at_first 100)
new-Answered_example =
    new-Answered Platform.unix 64 4096 22 counting unlockable at_first 100 page maps_page
