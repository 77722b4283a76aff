-- ===== src/Backing/Protect.antt =====
-- crates/forge-alloc/src/backing/mmap.rs: `os_protect` and the protection of `MmapBacked`, with the flags of
-- crates/forge-alloc-core/src/traits/os_backed.rs. The system's calls and constants are an argument.
use Prim.Native.Nat.{bit_or}
use forge_alloc.Base.{ℕ, Bool, true, false, not, ◌&&◌, none, if◌then◌else◌}
use forge_alloc.Backing.Mmap.{Platform, System, World, MmapBacked, capture_os_error}

pub record ProtectFlags : Type 0 where
  pub read : Bool
  pub write : Bool
  pub exec : Bool

-- `ProtectFlags::NONE`
abbrev pub no_access : ProtectFlags
no_access = record { read = false; write = false; exec = false }

-- The `PAGE_*` constants of Windows.
pub data PageProtection : Type 0 where
  page_noaccess : PageProtection
  page_readonly : PageProtection
  page_readwrite : PageProtection
  page_execute : PageProtection
  page_execute_read : PageProtection
  page_execute_readwrite : PageProtection

-- The `PROT_*` constants of a Unix; `mprotect`, and `VirtualProtect`, and whether it is done.
pub record ProtectSystem (S : Type 0) : Type 0 where
  pub prot_none : ℕ
  pub prot_read : ℕ
  pub prot_write : ℕ
  pub prot_exec : ℕ
  pub mprotect : S → ℕ → ℕ → ℕ → S × Bool
  pub virtual_protect : S → ℕ → ℕ → PageProtection → S × Bool

abbrev pub win32_prot : Bool → Bool → Bool → PageProtection
win32_prot false false false = PageProtection.page_noaccess
win32_prot true false false = PageProtection.page_readonly
win32_prot true true false = PageProtection.page_readwrite
win32_prot true false true = PageProtection.page_execute_read
win32_prot true true true = PageProtection.page_execute_readwrite
win32_prot false false true = PageProtection.page_execute
win32_prot false true true = PageProtection.page_execute_readwrite
win32_prot false true false = PageProtection.page_readwrite

unfoldable pub win32_prot_from_flags : ProtectFlags → PageProtection
win32_prot_from_flags flags = win32_prot flags.read flags.write flags.exec

module _ {S : Type 0} (calls : ProtectSystem S) where
  unfoldable pub unix_prot_from_flags : ProtectFlags → ℕ
  unix_prot_from_flags flags =
      let readable = if flags.read then calls.prot_read else 0 in
      let writable = if flags.write then bit_or readable calls.prot_write else readable in
      let prot = if flags.exec then bit_or writable calls.prot_exec else writable in
      if not flags.read && not flags.write && not flags.exec then calls.prot_none else prot

  -- The call of the platform's `os_protect`, and whether it is done.
  unfoldable pub change : Platform → S → ℕ → ℕ → ProtectFlags → S × Bool
  unfolding unix_prot_from_flags win32_prot_from_flags
  change Platform.unix s ptr size flags = calls.mprotect s ptr size (unix_prot_from_flags flags)
  change Platform.windows s ptr size flags =
      calls.virtual_protect s ptr size (win32_prot_from_flags flags)

module _ (platform : Platform) (w page einval : ℕ) {S : Type 0} (sys : System S)
    (calls : ProtectSystem S) where
  unfoldable pub os_protect : World S → ℕ → ℕ → ProtectFlags → World S
  unfolding change capture_os_error
  os_protect e ptr size flags =
      let (s, ok) = change calls platform e.system ptr size flags in
      if ok then record e { system = s } else capture_os_error platform w page einval sys s

  unfoldable pub protect : MmapBacked S → ℕ → ℕ → ProtectFlags → MmapBacked S
  unfolding os_protect
  protect b ptr size flags = record b { world = os_protect b.world ptr size flags }

-- `mmap_clear_last_os_error`
unfoldable pub clear_last_os_error : {S : Type 0} → MmapBacked S → MmapBacked S
clear_last_os_error b = record b { world = record b.world { last_error = none } }
