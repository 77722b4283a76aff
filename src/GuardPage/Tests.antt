-- ===== src/GuardPage/Tests.antt =====
-- Sixteen kilobytes at 65536 between two guard pages, over a system that keeps, for each address, whether
-- an access faults.
use forge_alloc.Base.{
  ℕ, ◌+◌, ◌≡◌, ◌↔◌, refl, arith, inl, inr, Bool, true, false, none, some, [], ◌∷◌, leb, ltb, ◌==◌,
  ◌&&◌, ◌||◌, not, if◌then◌else◌,
}
use forge_alloc.Word.Defs.{is_power_of_two}
use forge_alloc.Word.Align.{align_up}
use forge_alloc.Core.Layout.{NonZeroLayout}
use forge_alloc.Core.Range.{Block}
use forge_alloc.Cursor.{place}
use forge_alloc.Backing.Mmap.{Platform, System, MmapBacked}
use forge_alloc.Backing.Protect.{
  ProtectSystem, os_protect, protect, change, unix_prot_from_flags, clear_last_os_error,
}
use forge_alloc.GuardPage.{Guardable, GuardPage, is_clear, new, allocate}
use forge_alloc.GuardPage.Install.{IsGuardable, Roomy, Guards, guarded, headed, new_iff}
use forge_alloc.GuardPage.Live.{State, Step, Reach, Guarded, new-Reach-Guarded}
use forge_alloc.GuardPage.Mmap.{mmap_guardable, IsProtection, mmap-IsGuardable}

abbrev Faults : Type 0
Faults = ℕ → Bool

within : ℕ → ℕ → ℕ → Bool
within p n a = leb p a && ltb a (p + n)

abbrev faulting : System Faults
faulting = record {
  last_os_error = λ s. some 13;
  map = λ s n flags. (s, some 65536);
  commit = λ s p n. (s, true);
  release = λ s p n. (s, true);
  unmap = λ s p n. (s, true);
}

abbrev calls : ProtectSystem Faults
calls = record {
  prot_none = 0;
  prot_read = 1;
  prot_write = 2;
  prot_exec = 4;
  mprotect = λ s p n prot.
      (λ a. if prot == 0 then within p n a || s a else not (within p n a) && s a, true);
  virtual_protect = λ s p n prot. (s, false);
}

abbrev Shut : Faults → ℕ → Type 0
Shut s a = s a ≡ true

calls-IsProtection : IsProtection faulting calls Platform.unix 4096 Shut
unfolding within
calls-IsProtection = record {
  denies = λ s p n done a lo hi. ground (arith, lo, hi);
  tells = λ s p n fails. cc;
  stays = λ s p n a shut. ground (arith, shut);
  spares = λ s p n at whole a out shut. elim out [
    | inl before ↦ ground (arith, shut, before)
    | inr behind ↦ ground (arith, shut, behind)
  ];
}

abbrev os : Guardable (MmapBacked Faults)
os = mmap_guardable Platform.unix 64 4096 22 faulting calls

abbrev ShutIn : MmapBacked Faults → ℕ → Type 0
ShutIn b a = Shut b.world.system a

mmap-IsGuardable_example : IsGuardable os 4096 ShutIn
mmap-IsGuardable_example =
    mmap-IsGuardable Platform.unix 64 4096 22 faulting calls 4096 Shut calls-IsProtection

abbrev mapped : MmapBacked Faults
mapped = record {
  world = record { system = λ a. false; last_error = some 2 };
  ptr = 65536;
  len = 16384;
  cursor = 0;
  committed = 16384;
}

abbrev guarded_region : GuardPage (MmapBacked Faults)
guarded_region = record {
  inner = guarded os mapped 4096;
  page_size = 4096;
  base = 69632;
  usable_size = 8192;
  cursor = 0;
}

new_serves : (new 64 os mapped 4096).1 ≡ some guarded_region
unfolding new os_protect protect change clear_last_os_error unix_prot_from_flags is_power_of_two
    is_clear
new_serves = refl

new_iff_example :
    ((Roomy 64 os mapped 4096
        × (os.last_os_error (headed os mapped 4096) ≡ none)
        × (os.last_os_error (guarded os mapped 4096) ≡ none))
      ↔ ((g : GuardPage (MmapBacked Faults)) × ((new 64 os mapped 4096).1 ≡ some g)))
    × ((g : GuardPage (MmapBacked Faults))
        → (new 64 os mapped 4096).1 ≡ some g
        → (g.cursor ≡ 0) × Guards os 4096 ShutIn mapped 4096 g)
new_iff_example =
    new_iff 64 os 4096 ShutIn
      (mmap-IsGuardable Platform.unix 64 4096 22 faulting calls 4096 Shut calls-IsProtection) mapped
      4096 (omega arith) (omega arith)

-- Two blocks at the ends of the usable range.
abbrev small : NonZeroLayout
small = record { size = 100; align = 8 }

abbrev large : NonZeroLayout
large = record { size = 4096; align = 4096 }

abbrev first : Block
first = record { address = 69632; length = 100 }

abbrev second : Block
second = record { address = 73728; length = 4096 }

first_serves :
    allocate 64 guarded_region small ≡ (record guarded_region { cursor = 100 }, some first)
unfolding allocate place align_up
first_serves = refl

second_serves :
    allocate 64 (record guarded_region { cursor = 100 }) large
    ≡ (record guarded_region { cursor = 8192 }, some second)
unfolding allocate place align_up
second_serves = refl

abbrev at_first : State (MmapBacked Faults)
at_first = record { page = guarded_region; live = [] }

abbrev with_one : State (MmapBacked Faults)
with_one = record { page = record guarded_region { cursor = 100 }; live = first ∷ [] }

abbrev with_two : State (MmapBacked Faults)
with_two = record { page = record guarded_region { cursor = 8192 }; live = second ∷ first ∷ [] }

serves_small : Step 64 at_first with_one
serves_small =
    Step.allocates small first (record { exponent = 3; fits = omega arith; power = refl })
      first_serves refl

serves_large : Step 64 with_one with_two
serves_large =
    Step.allocates large second (record { exponent = 12; fits = omega arith; power = refl })
      second_serves refl

new-Reach-Guarded_example : Guarded 64 os 4096 ShutIn mapped 4096 with_two
new-Reach-Guarded_example =
    new-Reach-Guarded 64 os 4096 ShutIn
      (mmap-IsGuardable Platform.unix 64 4096 22 faulting calls 4096 Shut calls-IsProtection) mapped
      4096 guarded_region with_two (omega arith) (omega arith) new_serves
      (Reach.next (Reach.next Reach.here serves_small) serves_large)
