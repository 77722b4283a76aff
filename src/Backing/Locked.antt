-- ===== src/Backing/Locked.antt =====
-- crates/forge-alloc/src/backing/locked_mmap.rs: `LockedMmapBacked`, a region whose pages are locked in
-- memory. The calls that lock are the operations of a `LockSystem`.
mod Tests
use forge_alloc.Base.{
  ℕ, ◌+◌, ◌≡◌, ◌≢◌, ◌⊎◌, refl, sym, ap, subst, ◌∙◌, inl, inr, arith, Bool, true, false, Bool-cases,
  Option, none, some, Option-cases, if◌then◌else◌,
}
use forge_alloc.Core.Layout.{NonZeroLayout}
use forge_alloc.Core.Range.{FixedRange, Block}
use forge_alloc.Core.Allocator.{Allocator}
use forge_alloc.Backing.Mmap
use forge_alloc.Backing.Mmap.{
  Platform, no_flags, System, World, MmapBacked, capture_os_error, with_flags, allocate, os_commit,
  mmap_range,
}
use forge_alloc.Backing.Protect
use forge_alloc.Backing.Protect.{ProtectSystem, ProtectFlags}

-- `mlock` or `VirtualLock` and whether it is done; the advice that keeps pages out of dumps, which changes
-- nothing where there is none; the call that unlocks.
pub record LockSystem (S : Type 0) : Type 0 where
  pub lock : S → ℕ → ℕ → S × Bool
  pub dont_dump : S → ℕ → ℕ → S
  pub unlock : S → ℕ → ℕ → S × Bool

pub record LockedMmapBacked (S : Type 0) : Type 0 where
  pub inner : MmapBacked S

module _ (platform : Platform) (w page einval : ℕ) {S : Type 0} (sys : System S)
    (locks : LockSystem S) where
  unfoldable pub os_lock : World S → ℕ → ℕ → World S × Bool
  unfolding capture_os_error
  os_lock e base size =
      let (s, ok) = locks.lock e.system base size in
      if ok
      then (record e { system = locks.dont_dump s base size }, true)
      else (capture_os_error platform w page einval sys s, false)

  unfoldable pub os_unlock : World S → ℕ → ℕ → World S
  unfolding capture_os_error
  os_unlock e base size =
      let (s, ok) = locks.unlock e.system base size in
      if ok then record e { system = s } else capture_os_error platform w page einval sys s

  -- `if let Some(code) = saved { mmap_set_last_os_error(code) }`
  abbrev pub restore_error : Option ℕ → World S → World S
  restore_error none e = e
  restore_error (some code) e = record e { last_error = some code }

  -- The region is given back, and the error of the lock is kept over that.
  unfoldable pub give_up : MmapBacked S → World S → World S
  unfolding Mmap.drop
  give_up b e =
      restore_error e.last_error (Mmap.drop platform w page einval sys (record b { world = e }))

  -- The region that was mapped is locked, or given back.
  unfoldable pub keep_locked : World S → MmapBacked S → World S × Option (LockedMmapBacked S)
  unfolding os_lock give_up
  keep_locked e inner =
      let (e', ok) = os_lock e inner.ptr inner.len in
      if ok
      then (e', some (record { inner = record inner { world = e' } }))
      else (give_up inner e', none)

  unfoldable pub new : World S → ℕ → World S × Option (LockedMmapBacked S)
  unfolding with_flags keep_locked
  new e size =
      let (e', made) = with_flags platform w page einval sys e size no_flags in
      elim made [ none ↦ (e', none) | some inner ↦ keep_locked e' inner ]

  -- `Drop for LockedMmapBacked`: unlock, then the drop of the region.
  unfoldable pub drop : LockedMmapBacked S → World S
  unfolding os_unlock Mmap.drop
  drop b =
      Mmap.drop platform w page einval sys
        (record b.inner { world = os_unlock b.inner.world b.inner.ptr b.inner.len })

  unfoldable pub allocate_locked :
      LockedMmapBacked S → NonZeroLayout → LockedMmapBacked S × Option Block
  unfolding allocate
  allocate_locked b l =
      let (inner, got) = allocate platform w page einval sys b.inner l in
      (record { inner = inner }, got)

  -- Pages stay locked, so `release_pages` does nothing.
  unfoldable pub release_pages : LockedMmapBacked S → ℕ → ℕ → LockedMmapBacked S
  release_pages b ptr size = b

  unfoldable pub commit : LockedMmapBacked S → ℕ → ℕ → LockedMmapBacked S × Option (Unit {0})
  unfolding os_commit
  commit b offset n =
      let (inner, done) = os_commit platform w page einval sys b.inner offset n in
      (record { inner = inner }, done)

  -- A change of protection leaves the lock in place.
  unfoldable pub protect :
      ProtectSystem S → LockedMmapBacked S → ℕ → ℕ → ProtectFlags → LockedMmapBacked S
  unfolding Protect.protect
  protect calls b ptr size flags = record {
    inner = Protect.protect platform w page einval sys calls b.inner ptr size flags;
  }

  -- `impl FixedRange for LockedMmapBacked`
  abbrev pub locked_range : FixedRange (LockedMmapBacked S)
  locked_range = record { base = λ b. b.inner.ptr; size = λ b. b.inner.len; commit = commit }

  give_up_lem :
      (b : MmapBacked S) (e : World S)
      → ((give_up b e).system ≡ (sys.unmap e.system b.ptr b.len).0)
        × ((code : ℕ) → e.last_error ≡ some code → (give_up b e).last_error ≡ some code)
  unfolding give_up Mmap.drop capture_os_error
  give_up_lem b e = elim (Bool-cases (sys.unmap e.system b.ptr b.len).1) [
    | inl done ↦ elim (Option-cases e.last_error) [
      | inl silent ↦ (ground (arith, done, silent), λ code known. ground (arith, silent, known))
      | inr (c, saved) ↦
          (ground (arith, done, saved), λ code known. ground (arith, done, saved, known))
    ]
    | inr fails ↦ elim (Option-cases e.last_error) [
      | inl silent ↦ (ground (arith, fails, silent), λ code known. ground (arith, silent, known))
      | inr (c, saved) ↦
          (ground (arith, fails, saved), λ code known. ground (arith, fails, saved, known))
    ]
  ]

  -- What `LockedMmapBacked::new` answers for a region that was mapped.
  pub record Answered (after : World S) (inner : MmapBacked S)
      (out : World S × Option (LockedMmapBacked S)) : Type 0 where
    pub refused :
        (locks.lock after.system inner.ptr inner.len).1 ≡ false
        → (out.1 ≡ none)
          × (out.0.system
              ≡ (sys.unmap (locks.lock after.system inner.ptr inner.len).0 inner.ptr inner.len).0)
          × ((code : ℕ)
              → sys.last_os_error (locks.lock after.system inner.ptr inner.len).0 ≡ some code
              → out.0.last_error ≡ some code)
    pub locked :
        (locks.lock after.system inner.ptr inner.len).1 ≡ true
        → (out.1 ≡ some (record { inner = record inner { world = out.0 } }))
          × (out.0.system
              ≡ locks.dont_dump (locks.lock after.system inner.ptr inner.len).0 inner.ptr inner.len)

  keep_locked-Answered :
      (e : World S) (inner : MmapBacked S) → Answered e inner (keep_locked e inner)
  unfolding keep_locked os_lock capture_os_error
  keep_locked-Answered e inner =
      let s : S = (locks.lock e.system inner.ptr inner.len).0 in
      let (unmapped, kept) = give_up_lem inner (capture_os_error platform w page einval sys s) in
      record {
        refused = λ no_lock.
            let same : keep_locked e inner
                ≡ (give_up inner (capture_os_error platform w page einval sys s), none) =
              ground (arith, no_lock) in
            rw same (refl, unmapped, kept);
        locked = λ lock.
            let same : keep_locked e inner ≡ (
              record e { system = locks.dont_dump s inner.ptr inner.len },
              some (record {
                inner = record inner {
                  world = record e { system = locks.dont_dump s inner.ptr inner.len };
                };
              }),
            ) =
              ground (arith, lock) in
            rw same (refl, refl);
      }

  -- Where a region is mapped and the lock is refused: `new` fails, the region is unmapped, and the last
  -- error is the lock's, where the system has a code for it, whether or not the unmapping fails. Where
  -- the lock succeeds, `new` answers that region, and it stays mapped.
  pub new-Answered :
      (e : World S) (size : ℕ) (inner : MmapBacked S)
      → (with_flags platform w page einval sys e size no_flags).1 ≡ some inner
      → Answered (with_flags platform w page einval sys e size no_flags).0 inner (new e size)
  unfolding new
  new-Answered e size inner made =
      let after : World S = (with_flags platform w page einval sys e size no_flags).0 in
      let same : new e size ≡ keep_locked after inner =
        ap
          (λ (o : Option (MmapBacked S)). elim o as (λ _. World S × Option (LockedMmapBacked S)) [
            | none ↦ (after, none)
            | some x ↦ keep_locked after x
          ])
          made in
      subst (Answered after inner) (sym same) (keep_locked-Answered after inner)
