-- ===== src/GuardPage.antt =====
-- crates/forge-alloc/src/hardening/guard_page.rs: `GuardPage`, a bump cursor between two pages that fault.
-- The backing and the thread's last error are an argument, with a state `I`.
pub mod Install
pub mod Live
pub mod Mmap
mod Tests
use forge_alloc.Base.{
  ℕ, ◌+◌, ◌-◌, ◌*◌, bit_and, Bool, true, false, not, ◌||◌, Option, none, some, ltb, ◌==◌, guard,
  ◌>>=◌, ◌>>◌, if◌then◌else◌,
}
use forge_alloc.Word.Defs.{checked_add, checked_mul, is_power_of_two}
use forge_alloc.Core.Layout.{NonZeroLayout}
use forge_alloc.Backing.Protect.{ProtectFlags, no_access}
use forge_alloc.Core.Range.{FixedRange, Block, commit_default}
use forge_alloc.Cursor.{place}

-- The part of `trait OsBacked` that the wrapper uses, and the slot of the thread's last error, which a
-- failed call of the system sets.
pub record Guardable (I : Type 0) : Type 0 where
  pub base_ptr : I → ℕ
  pub region_size : I → ℕ
  pub protect : I → ℕ → ℕ → ProtectFlags → I
  pub clear_last_os_error : I → I
  pub last_os_error : I → Option ℕ

pub record GuardPage (I : Type 0) : Type 0 where
  pub inner : I
  pub page_size : ℕ
  pub base : ℕ
  pub usable_size : ℕ
  pub cursor : ℕ

-- No error is recorded.
unfoldable pub is_clear : Option ℕ → Bool
is_clear none = true
is_clear (some code) = false

module _ (w : ℕ) {I : Type 0} (os : Guardable I) where
  -- The checks that `new` makes before it protects anything.
  unfoldable pub check_region : I → ℕ → Option (Unit {0})
  check_region i page = do
    guard (not (page == 0 || not (is_power_of_two w page)))
    twice ← checked_mul w 2 page
    needed ← checked_add w twice 1
    guard (not (ltb (os.region_size i) needed))
    guard (bit_and (os.base_ptr i) (page - 1) == 0)
    guard (bit_and (os.region_size i) (page - 1) == 0)

  -- One guard page, and whether no error is recorded after it.
  unfoldable pub protect_page : I → ℕ → ℕ → I × Bool
  protect_page i ptr page =
      let i' = os.protect i ptr page no_access in (i', is_clear (os.last_os_error i'))

  unfoldable pub install_guards : I → ℕ → I × Bool
  unfolding protect_page
  install_guards i page =
      let (headed, ok) = protect_page (os.clear_last_os_error i) (os.base_ptr i) page in
      if ok
      then protect_page headed (os.base_ptr headed + (os.region_size i - page)) page
      else (headed, false)

  -- The region comes back in either case; after a failure it is what is left to be dropped.
  unfoldable pub new : I → ℕ → I × Option (GuardPage I)
  unfolding check_region install_guards
  new i page = elim (check_region i page) [
    | none ↦ (i, none)
    | some u ↦
        let (guarded, ok) = install_guards i page in
        if ok
        then (
          guarded,
          some (record {
            inner = guarded;
            page_size = page;
            base = os.base_ptr guarded + page;
            usable_size = os.region_size i - 2 * page;
            cursor = 0;
          }),
        )
        else (guarded, none)
  ]

module _ {I : Type 0} where
  unfoldable pub allocated : GuardPage I → ℕ
  allocated g = g.cursor

  unfoldable pub capacity_bytes : GuardPage I → Option ℕ
  capacity_bytes g = some g.usable_size

  -- A free reclaims nothing before the drop.
  unfoldable pub deallocate : GuardPage I → ℕ → NonZeroLayout → GuardPage I
  deallocate g ptr l = g

  unfoldable pub allocate : ℕ → GuardPage I → NonZeroLayout → GuardPage I × Option Block
  unfolding place
  allocate w g l = elim (place w g.base g.cursor g.usable_size l) [
    | none ↦ (g, none)
    | some (offset, end) ↦
        (record g { cursor = end }, some (record { address = g.base + offset; length = l.size }))
  ]

  -- `impl FixedRange for GuardPage`
  abbrev pub guarded_range : FixedRange (GuardPage I)
  guarded_range = record { base = λ g. g.base; size = λ g. g.usable_size; commit = commit_default }
