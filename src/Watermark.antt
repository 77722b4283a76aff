-- ===== src/Watermark.antt =====
-- crates/forge-alloc/src/hardening/watermark.rs: `Watermark<I, H>` over an inner allocator with state `S`
-- that reports a capacity, and a handler with state `H`. `usize` has `w` bits.
pub mod Gate
pub mod Threads
pub mod Latch
mod Tests
use Prim.Native.Nat.{bit_or}
use forge_alloc.Base.{
  ℕ, ◌+◌, ◌-◌, ◌*◌, ◌/◌, ◌%◌, ◌^◌, bit_and, min, Bool, true, false, Option, none, some, leb, ◌==◌,
  if◌then◌else◌,
}
use forge_alloc.Word.Defs.{usize_max, saturating_add, wrapping_add, wrapping_sub}
use forge_alloc.Core.Layout.{NonZeroLayout}
use forge_alloc.Core.Range.{Block}
use forge_alloc.Core.Allocator.{Allocator}

pub data WatermarkLevel : Type 0 where
  warn : WatermarkLevel
  critical : WatermarkLevel
  oom : WatermarkLevel

pub record WatermarkThresholds : Type 0 where
  pub warn_pct : ℕ
  pub critical_pct : ℕ

-- `WatermarkThresholds::default`
abbrev pub default_thresholds : WatermarkThresholds
default_thresholds = record { warn_pct = 75; critical_pct = 90 }

pub record WatermarkEvent : Type 0 where
  pub level : WatermarkLevel
  pub allocated_bytes : ℕ
  pub capacity_bytes : ℕ
  pub requested_layout : Option NonZeroLayout

pub record WatermarkHandler (H : Type 0) : Type 0 where
  pub on_warn : H → WatermarkEvent → H
  pub on_critical : H → WatermarkEvent → H
  pub on_oom : H → WatermarkEvent → H

-- `NullHandler`, and `FnHandler` of a closure.
abbrev pub null_handler : {H : Type 0} → WatermarkHandler H
null_handler = record { on_warn = λ h e. h; on_critical = λ h e. h; on_oom = λ h e. h }

abbrev pub fn_handler : {H : Type 0} → (H → WatermarkEvent → H) → WatermarkHandler H
fn_handler f = record { on_warn = f; on_critical = f; on_oom = f }

-- What a check finds: no threshold is reached, or one with its event.
pub data Crossing : Type 0 where
  below : Crossing
  at_warn : WatermarkEvent → Crossing
  at_critical : WatermarkEvent → Crossing

pub record Watermark (S H : Type 0) : Type 0 where
  pub inner : S
  pub handler : H
  pub thresholds : WatermarkThresholds
  pub capacity_bytes : ℕ
  pub warn_threshold_bytes : ℕ
  pub allocated : ℕ
  pub fired : ℕ

abbrev pub fired_warn : ℕ
fired_warn = 1

abbrev pub fired_critical : ℕ
fired_critical = 2

-- The capacity that is reported, or a default.
abbrev pub unwrap_or : Option ℕ → ℕ → ℕ
unwrap_or none d = d
unwrap_or (some n) d = n

unfoldable pub gate_of : ℕ → ℕ → WatermarkThresholds → ℕ
gate_of w capacity t =
    if capacity == usize_max w
    then usize_max w
    else let pct = min (min t.warn_pct 100) (min t.critical_pct 100) in capacity * pct / 100

module _ (w : ℕ) {S H : Type 0} (al : Allocator S) (capacity : S → Option ℕ)
    (on : WatermarkHandler H) where
  unfoldable pub with_thresholds : S → H → WatermarkThresholds → Watermark S H
  unfolding gate_of
  with_thresholds inner handler t =
      let capacity_bytes = unwrap_or (capacity inner) (usize_max w) in
      record {
        inner = inner;
        handler = handler;
        thresholds = t;
        capacity_bytes = capacity_bytes;
        warn_threshold_bytes = gate_of w capacity_bytes t;
        allocated = 0;
        fired = 0;
      }

  unfoldable pub rearm : Watermark S H → Watermark S H
  rearm m = record m { fired = 0 }

  unfoldable pub current_capacity : Watermark S H → ℕ
  current_capacity m = unwrap_or (capacity m.inner) m.capacity_bytes

  -- The percentage, at most 255.
  unfoldable pub percent : ℕ → ℕ → ℕ
  percent new_bytes cap = min (new_bytes * 100 / cap) 255

  abbrev event_of : WatermarkLevel → ℕ → ℕ → Option NonZeroLayout → WatermarkEvent
  event_of level bytes cap requested = record {
    level = level;
    allocated_bytes = bytes;
    capacity_bytes = cap;
    requested_layout = requested;
  }

  -- The `fetch_or` of the critical threshold, and whether this call is the one that crosses it.
  unfoldable pub raise_critical : Watermark S H → Watermark S H × Bool
  raise_critical m = (
    record m { fired = bit_or m.fired (bit_or fired_critical fired_warn) },
    bit_and m.fired fired_critical == 0,
  )

  unfoldable pub raise_warn : Watermark S H → Watermark S H × Bool
  raise_warn m = (record m { fired = bit_or m.fired fired_warn }, bit_and m.fired fired_warn == 0)

  -- The calls of the handler.
  unfoldable pub tell_critical : Watermark S H → WatermarkEvent → Watermark S H
  tell_critical m e = record m { handler = on.on_critical m.handler e }

  unfoldable pub tell_warn : Watermark S H → WatermarkEvent → Watermark S H
  tell_warn m e = record m { handler = on.on_warn m.handler e }

  -- Where the bytes stand, by the capacity now.
  unfoldable pub crossing : Watermark S H → ℕ → Option NonZeroLayout → Crossing
  unfolding current_capacity percent
  crossing m new_bytes requested =
      let cap = current_capacity m in
      if cap == 0
      then Crossing.below
      else if leb m.thresholds.critical_pct (percent new_bytes cap)
      then Crossing.at_critical (event_of WatermarkLevel.critical new_bytes cap requested)
      else if leb m.thresholds.warn_pct (percent new_bytes cap)
      then Crossing.at_warn (event_of WatermarkLevel.warn new_bytes cap requested)
      else Crossing.below

  -- The whole check, as one thread makes it.
  unfoldable pub check_and_fire : Watermark S H → ℕ → Option NonZeroLayout → Watermark S H
  unfolding crossing raise_critical raise_warn tell_critical tell_warn
  check_and_fire m new_bytes requested = elim (crossing m new_bytes requested) [
    | Crossing.below ↦ m
    | Crossing.at_warn e ↦ let (set, first) = raise_warn m in if first then tell_warn set e else set
    | Crossing.at_critical e ↦
        let (set, first) = raise_critical m in if first then tell_critical set e else set
  ]

  unfoldable pub deallocate : Watermark S H → ℕ → NonZeroLayout → Watermark S H
  deallocate m ptr l = record m {
    allocated = wrapping_sub w m.allocated l.size;
    inner = al.deallocate m.inner ptr l;
  }

  -- The counter, the gate and the check of a block that the inner allocator has served.
  unfoldable pub count_served : Watermark S H → NonZeroLayout → Watermark S H
  unfolding check_and_fire
  count_served m l =
      let new_bytes = saturating_add w m.allocated l.size in
      let counted = record m { allocated = wrapping_add w m.allocated l.size } in
      if leb m.warn_threshold_bytes new_bytes
      then check_and_fire counted new_bytes none
      else counted

  unfoldable pub allocate : Watermark S H → NonZeroLayout → Watermark S H × Option Block
  unfolding count_served current_capacity
  allocate m l =
      let (s, got) = al.allocate m.inner l in
      let m' : Watermark S H = record m { inner = s } in
      elim got [
        | some b ↦ (count_served m' l, some b)
        | none ↦ (
          record m' {
            handler =
                on.on_oom m.handler
                  (event_of WatermarkLevel.oom m.allocated (current_capacity m') (some l));
          },
          none,
        )
      ]
