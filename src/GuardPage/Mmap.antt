-- ===== src/GuardPage/Mmap.antt =====
-- Guard pages of an `MmapBacked`, on Unix and on Windows.
use forge_alloc.Base.{
  ℕ, ◌+◌, ◌≤◌, ◌<◌, ◌≡◌, ◌≢◌, ◌⊎◌, refl, sym, subst, ◌∙◌, arith, inl, inr, true, false, Bool-cases,
  none, Bool,
}
use forge_alloc.Word.Align.{IsAligned}
use forge_alloc.Backing.Mmap.{Platform, System, MmapBacked, capture_os_error}
use forge_alloc.Backing.Protect.{
  no_access, page_noaccess, ProtectSystem, unix_prot_from_flags, win32_prot_from_flags, change,
  os_protect, protect, clear_last_os_error,
}
use forge_alloc.GuardPage.{Guardable}
use forge_alloc.GuardPage.Install.{IsGuardable}

-- `impl OsBacked for MmapBacked`, as far as the guard pages use it.
abbrev pub mmap_guardable :
    Platform → ℕ → ℕ → ℕ → {S : Type 0} → System S → ProtectSystem S → Guardable (MmapBacked S)
mmap_guardable platform w page einval sys calls = record {
  base_ptr = λ b. b.ptr;
  region_size = λ b. b.len;
  protect = protect platform w page einval sys calls;
  clear_last_os_error = clear_last_os_error;
  last_os_error = λ b. b.world.last_error;
}

-- The call that takes every access away.
abbrev pub deny : {S : Type 0} → ProtectSystem S → Platform → S → ℕ → ℕ → S × Bool
deny calls Platform.unix s ptr n = calls.mprotect s ptr n calls.prot_none
deny calls Platform.windows s ptr n = calls.virtual_protect s ptr n page_noaccess

change-deny :
    {S : Type 0} (calls : ProtectSystem S) (platform : Platform) (s : S) (ptr n : ℕ)
    → change calls platform s ptr n no_access ≡ deny calls platform s ptr n
unfolding change unix_prot_from_flags win32_prot_from_flags
change-deny calls Platform.unix s ptr n = refl
change-deny calls Platform.windows s ptr n = refl

-- What the system documents of that call: where it is done, each byte of the range faults; where it fails,
-- there is an error code; it opens no byte; and it closes none outside a range of whole pages.
pub record IsProtection {S : Type 0} (sys : System S) (calls : ProtectSystem S)
    (platform : Platform) (os_page : ℕ) (closed : S → ℕ → Type 0) : Type 0 where
  pub denies :
      (s : S) (ptr n : ℕ)
      → (deny calls platform s ptr n).1 ≡ true
      → (a : ℕ) → ptr ≤ a
      → a < ptr + n
      → closed (deny calls platform s ptr n).0 a
  pub tells :
      (s : S) (ptr n : ℕ)
      → (deny calls platform s ptr n).1 ≡ false
      → sys.last_os_error (deny calls platform s ptr n).0 ≢ none
  pub stays : (s : S) (ptr n a : ℕ) → closed s a → closed (deny calls platform s ptr n).0 a
  pub spares :
      (s : S) (ptr n : ℕ)
      → IsAligned ptr os_page
      → IsAligned n os_page
      → (a : ℕ) → (a < ptr) ⊎ (ptr + n ≤ a)
      → closed (deny calls platform s ptr n).0 a
      → closed s a

module _ (platform : Platform) (w page einval : ℕ) {S : Type 0} (sys : System S)
    (calls : ProtectSystem S) where
  protect_lem :
      (b : MmapBacked S) (ptr n : ℕ)
      → ((protect platform w page einval sys calls b ptr n no_access).world.system
          ≡ (deny calls platform b.world.system ptr n).0)
        × ((deny calls platform b.world.system ptr n).1 ≡ false
            → (protect platform w page einval sys calls b ptr n no_access).world.last_error
              ≡ sys.last_os_error (deny calls platform b.world.system ptr n).0)
  unfolding protect os_protect capture_os_error
  protect_lem b ptr n =
      rw (change-deny calls platform b.world.system ptr n)
        (elim (Bool-cases (deny calls platform b.world.system ptr n).1) [
          | inl done ↦ (ground (arith, done), λ fails. absurd (ground (arith, done, fails)))
          | inr fails ↦ (ground (arith, fails), λ again. ground (arith, fails))
        ])

  -- Over a system that keeps its documented behaviour, an `MmapBacked` is a region that can have guard pages:
  -- a change of protection keeps its place, a range protected with no access faults where no
  -- error is recorded, it opens no byte, and it closes no byte outside a range of whole pages.
  pub mmap-IsGuardable :
      (os_page : ℕ) (closed : S → ℕ → Type 0)
      → IsProtection sys calls platform os_page closed
      → IsGuardable
          (mmap_guardable platform w page einval sys calls)
          os_page
          (λ b a. closed b.world.system a)
  unfolding protect clear_last_os_error
  mmap-IsGuardable os_page closed laws = record {
    base_kept = λ b ptr n. refl;
    base_cleared = λ b. refl;
    cleared = λ b. refl;
    clear_keeps = λ b a shut. shut;
    closes = λ b ptr n before after a lo hi.
        elim (Bool-cases (deny calls platform b.world.system ptr n).1) [
          | inl done ↦ rw ((protect_lem b ptr n).0) (laws.denies b.world.system ptr n done a lo hi)
          | inr fails ↦
              absurd (
                laws.tells b.world.system ptr n fails (sym ((protect_lem b ptr n).1 fails) ∙ after))
        ];
    stays = λ b ptr n a shut. rw ((protect_lem b ptr n).0) (laws.stays b.world.system ptr n a shut);
    spares = λ b ptr n at whole a out shut.
        laws.spares b.world.system ptr n at whole a out
          (subst (λ (s : S). closed s a) ((protect_lem b ptr n).0) shut);
  }
