-- ===== src/Statistics.antt =====
-- crates/forge-alloc/src/hardening/statistics.rs: `AllocStats` and `Statistics<I>` over an inner allocator
-- with state `S` that counts its corruption events in 64 bits. The counters have `w` bits. What a
-- relaxed read of a counter sees, which may be an older value, is an argument.
pub mod Peak
pub mod Live
mod Tests
use forge_alloc.Base.{ℕ, ◌+◌, ◌-◌, ◌%◌, ◌^◌, min, max, Bool, Option, none, some, ltb, if◌then◌else◌}
use forge_alloc.Word.Defs.{usize_max, saturating_add, wrapping_add, wrapping_sub}
use forge_alloc.Core.Layout.{NonZeroLayout}
use forge_alloc.Core.Range.{Block}
use forge_alloc.Core.Allocator.{Allocator}

pub record AllocStats : Type 0 where
  pub total_allocations : ℕ
  pub total_deallocations : ℕ
  pub bytes_allocated : ℕ
  pub bytes_peak : ℕ
  pub failures : ℕ
  pub corruption_events : ℕ

abbrev pub new_stats : AllocStats
new_stats = record {
  total_allocations = 0;
  total_deallocations = 0;
  bytes_allocated = 0;
  bytes_peak = 0;
  failures = 0;
  corruption_events = 0;
}

pub record Statistics (S : Type 0) : Type 0 where
  pub inner : S
  pub stats : AllocStats

-- What the relaxed reads of a call see: of the mirror, and of the peak.
pub record Reads : Type 0 where
  pub mirror : ℕ
  pub peak : ℕ

unfoldable pub new : {S : Type 0} → S → Statistics S
new inner = record { inner = inner; stats = new_stats }

-- `fetch_max` where the value read is smaller.
unfoldable pub raise : ℕ → ℕ → ℕ → ℕ
raise seen counter value = if ltb seen value then max counter value else counter

-- The mirror after it was read as `seen`.
unfoldable pub mirror_corruption : ℕ → ℕ → ℕ → ℕ → ℕ
unfolding raise
mirror_corruption w seen mirror inner_val = raise seen mirror (min inner_val (usize_max w))

module _ (w : ℕ) {S : Type 0} (al : Allocator S) (corruption : S → ℕ) where
  abbrev mirrored : ℕ → AllocStats → S → AllocStats
  mirrored seen t s = record t {
    corruption_events = mirror_corruption w seen t.corruption_events (corruption s);
  }

  unfoldable pub deallocate : Statistics S → Reads → ℕ → NonZeroLayout → Statistics S
  unfolding mirror_corruption
  deallocate t seen ptr l =
      let counted = record t.stats {
        total_deallocations = wrapping_add w t.stats.total_deallocations 1;
        bytes_allocated = wrapping_sub w t.stats.bytes_allocated l.size;
      } in
      record { inner = al.deallocate t.inner ptr l; stats = mirrored seen.mirror counted t.inner }

  -- The counters of a block that was served.
  unfoldable pub count_served : AllocStats → Reads → NonZeroLayout → AllocStats
  unfolding raise
  count_served t seen l =
      let prev = t.bytes_allocated in
      record t {
        total_allocations = wrapping_add w t.total_allocations 1;
        bytes_allocated = wrapping_add w prev l.size;
        bytes_peak = raise seen.peak t.bytes_peak (saturating_add w prev l.size);
      }

  unfoldable pub allocate : Statistics S → Reads → NonZeroLayout → Statistics S × Option Block
  unfolding mirror_corruption count_served
  allocate t seen l =
      let (s, got) = al.allocate t.inner l in
      let stats = mirrored seen.mirror t.stats s in
      elim got [
        | some b ↦ (record { inner = s; stats = count_served stats seen l }, some b)
        | none ↦ (
          record { inner = s; stats = record stats { failures = wrapping_add w stats.failures 1 } },
          none,
        )
      ]
