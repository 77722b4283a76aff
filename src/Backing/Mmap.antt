-- ===== src/Backing/Mmap.antt =====
-- crates/forge-alloc/src/backing/mmap.rs: `MmapBacked` on Unix and on Windows. The calls of the operating
-- system are the operations of a `System` over a state of its own. The thread's last error is kept beside
-- that state, and both stand in the region.
pub mod Commit
pub mod Backed
pub mod Bounds
mod Tests
use forge_alloc.Base.{
  ℕ, ◌+◌, ◌-◌, Bool, true, false, Option, none, some, min, ltb, leb, ◌==◌, ◌&&◌, if◌then◌else◌,
  ◌>>=◌,
}
use forge_alloc.Word.Defs.{checked_add, saturating_add, is_power_of_two}
use forge_alloc.Word.Align.{align_up}
use forge_alloc.Core.Layout.{NonZeroLayout}
use forge_alloc.Core.Range.{FixedRange, Block}
use forge_alloc.Core.Allocator.{Allocator}
use forge_alloc.Cursor.{place}

pub data Platform : Type 0 where
  unix : Platform
  windows : Platform

pub record MmapFlags : Type 0 where
  pub huge_pages : Bool
  pub populate : Bool
  pub numa_node : Option ℕ
  pub guard_at_end : Bool
  pub lazy_commit : Bool

-- `MmapFlags::NONE`
abbrev pub no_flags : MmapFlags
no_flags = record {
  huge_pages = false;
  populate = false;
  numa_node = none;
  guard_at_end = false;
  lazy_commit = false;
}

-- The system's calls: `raw_os_error` of the last error; a new mapping of a length; the commit of a range,
-- and whether it is done; advice on a range, and whether it is taken.
pub record System (S : Type 0) : Type 0 where
  pub last_os_error : S → Option ℕ
  pub map : S → ℕ → MmapFlags → S × Option ℕ
  pub commit : S → ℕ → ℕ → S × Bool
  pub release : S → ℕ → ℕ → S × Bool
  pub unmap : S → ℕ → ℕ → S × Bool

-- The system, and `LAST_OS_ERROR` of the thread.
pub record World (S : Type 0) : Type 0 where
  pub system : S
  pub last_error : Option ℕ

pub record MmapBacked (S : Type 0) : Type 0 where
  pub world : World S
  pub ptr : ℕ
  pub len : ℕ
  pub cursor : ℕ
  pub committed : ℕ

-- The answer and the new cached value, from the cached value and what the system reports.
unfoldable pub page_size : ℕ → ℕ → ℕ → ℕ × ℕ
page_size w cached reported =
    if cached == 0
    then (let ps = if ltb 0 reported && is_power_of_two w reported then reported else 4096 in
        (ps, ps))
    else (cached, cached)

module _ {S : Type 0} where
  unfoldable pub allocated : MmapBacked S → ℕ
  allocated b = b.cursor

  unfoldable pub remaining : MmapBacked S → ℕ
  remaining b = b.len - b.cursor

-- `platform`, the width, the page size, and the code that stands for `EINVAL`
module _ (platform : Platform) (w page einval : ℕ) {S : Type 0} (sys : System S) where
  unfoldable pub capture_os_error : S → World S
  capture_os_error s = record { system = s; last_error = sys.last_os_error s }

  unfoldable pub capture_synthetic_einval : World S → World S
  capture_synthetic_einval e = record e { last_error = some einval }

  unfoldable pub os_map : World S → ℕ → MmapFlags → World S × Option ℕ
  unfolding capture_os_error
  os_map e len flags =
      let (s, got) = sys.map e.system len flags in
      elim got [ none ↦ (capture_os_error s, none) | some p ↦ (record e { system = s }, some p) ]

  -- The bytes that are committed at first.
  unfoldable pub first_committed : MmapFlags → ℕ → ℕ
  first_committed flags len = elim platform [
    | unix ↦ len
    | windows ↦ if flags.lazy_commit then 0 else len
  ]

  unfoldable pub with_flags : World S → ℕ → MmapFlags → World S × Option (MmapBacked S)
  unfolding capture_synthetic_einval os_map first_committed
  with_flags e size flags =
      if size == 0 then (capture_synthetic_einval e, none) else elim (align_up w size page) [
        | none ↦ (capture_synthetic_einval e, none)
        | some len ↦
            let (e', got) = os_map e len flags in
            elim got [
              | none ↦ (e', none)
              | some p ↦ (
                e',
                some (record {
                  world = e';
                  ptr = p;
                  len = len;
                  cursor = 0;
                  committed = first_committed flags len;
                }),
              )
            ]
      ]

  -- The commit of the bytes from those that are committed up to `target`.
  unfoldable pub commit_to : MmapBacked S → ℕ → MmapBacked S × Option (Unit {0})
  unfolding capture_os_error
  commit_to b target =
      if leb target b.committed
      then (b, some tt)
      else let (s, done) = sys.commit b.world.system (b.ptr + b.committed) (target - b.committed) in
        if done
        then (record b { world = record b.world { system = s }; committed = target }, some tt)
        else (record b { world = capture_os_error s }, none)

  unfoldable pub os_commit : MmapBacked S → ℕ → ℕ → MmapBacked S × Option (Unit {0})
  unfolding commit_to
  os_commit b offset len = elim platform [
    | unix ↦ (b, some tt)
    | windows ↦ elim (checked_add w offset len >>= λ end. align_up w end page) [
      | none ↦ (b, none)
      | some end_paged ↦ commit_to b (min end_paged b.len)
    ]
  ]

  unfoldable pub allocate : MmapBacked S → NonZeroLayout → MmapBacked S × Option Block
  unfolding os_commit
  allocate b l = elim (place w b.ptr b.cursor b.len l) [
    | none ↦ (b, none)
    | some (aligned_off, end_off) ↦
        let (b', done) = os_commit b aligned_off l.size in
        elim done [
          | none ↦ (b', none)
          | some _ ↦ (
            record b' { cursor = end_off },
            some (record { address = b.ptr + aligned_off; length = l.size }),
          )
        ]
  ]

  -- `impl FixedRange for MmapBacked`
  abbrev pub mmap_range : FixedRange (MmapBacked S)
  mmap_range = record { base = λ b. b.ptr; size = λ b. b.len; commit = os_commit }

  -- `impl Allocator for MmapBacked`: a free does nothing.
  abbrev pub mmap_allocator : Allocator (MmapBacked S)
  mmap_allocator = record { allocate = allocate; deallocate = λ b ptr l. b }

  unfoldable pub os_release_pages : MmapBacked S → ℕ → ℕ → MmapBacked S
  unfolding capture_os_error
  os_release_pages b ptr size =
      let (s, done) = sys.release b.world.system ptr size in
      if done
      then record b { world = record b.world { system = s } }
      else record b { world = capture_os_error s }

  -- The part of a range that is committed, from the pointer on.
  unfoldable pub clamped : MmapBacked S → ℕ → ℕ → ℕ
  clamped b ptr size = let off = ptr - b.ptr in min (saturating_add w off size) b.committed - off

  unfoldable pub release_pages : MmapBacked S → ℕ → ℕ → MmapBacked S
  unfolding os_release_pages clamped
  release_pages b ptr size = elim platform [
    | unix ↦ os_release_pages b ptr size
    | windows ↦ if clamped b ptr size == 0 then b else os_release_pages b ptr (clamped b ptr size)
  ]

  -- `Drop for MmapBacked`
  unfoldable pub drop : MmapBacked S → World S
  unfolding capture_os_error
  drop b =
      let (s, done) = sys.unmap b.world.system b.ptr b.len in
      if done then record b.world { system = s } else capture_os_error s
