-- ===== src/Watermark/Tests.antt =====
-- A hundred bytes, of which the inner allocator hands out the next ones.
use forge_alloc.Base.{ℕ, ◌+◌, ◌≡◌, refl, arith, Option, none, some, [], ◌∷◌, ltb, if◌then◌else◌}
use forge_alloc.Core.Layout.{NonZeroLayout}
use forge_alloc.Core.Allocator.{Allocator}
use forge_alloc.Watermark.{
  WatermarkLevel, WatermarkEvent, default_thresholds, with_thresholds, allocate,
}
use forge_alloc.Watermark.Gate.{allocate_always, allocate-allocate_always}
use forge_alloc.Watermark.Threads.{recorder, Mark, Call, State}
use forge_alloc.Watermark.Latch.{start}

abbrev hundred : Allocator ℕ
hundred = record {
  allocate = λ s l.
      if ltb 100 (s + l.size)
      then (s, none)
      else (s + l.size, some (record { address = 4096 + s; length = l.size }));
  deallocate = λ s ptr l. s;
}

abbrev capacity : ℕ → Option ℕ
capacity s = some 100

abbrev fresh : Mark 64 hundred capacity
fresh = with_thresholds 64 hundred capacity recorder 0 [] default_thresholds

abbrev bytes : ℕ → NonZeroLayout
bytes n = record { size = n; align = 1 }

-- Eighty bytes are above the lower threshold only, ninety-five above both.
warns_then_critical :
    let first = (allocate 64 hundred capacity recorder fresh (bytes 80)).0 in
    let second = (allocate 64 hundred capacity recorder first (bytes 15)).0 in
    let third = (allocate 64 hundred capacity recorder second (bytes 1)).0 in
    third.handler ≡ WatermarkLevel.critical ∷ WatermarkLevel.warn ∷ []
unfolding with_thresholds allocate
warns_then_critical = refl

allocate-allocate_always_example :
    allocate 64 hundred capacity recorder fresh (bytes 80)
    ≡ allocate_always 64 hundred capacity recorder fresh (bytes 80)
unfolding with_thresholds
allocate-allocate_always_example =
    allocate-allocate_always 64 hundred capacity recorder fresh (bytes 80) 100 refl
      (λ e. omega (arith, e)) (omega arith)

-- Two threads: one sets the bit of the lower threshold, the other then crosses the upper one and tells it
-- first.
abbrev event : WatermarkLevel → ℕ → WatermarkEvent
event level n = record {
  level = level;
  allocated_bytes = n;
  capacity_bytes = 100;
  requested_layout = none;
}

abbrev At : Type 0
At = State 64 hundred capacity

abbrev first_counts : At
first_counts = record (start 64 hundred capacity 0 default_thresholds) {
  mark = record fresh { allocated = 80 };
  calls = Call.checking 80 ∷ [];
}

abbrev first_checks : At
first_checks = record first_counts { calls = Call.raising_warn (event WatermarkLevel.warn 80) ∷ [] }

abbrev first_raises : At
first_raises = record first_checks {
  mark = record fresh { allocated = 80; fired = 1 };
  calls = Call.telling_warn (event WatermarkLevel.warn 80) ∷ [];
  edges = WatermarkLevel.warn ∷ [];
}

abbrev second_counts : At
second_counts = record first_raises {
  mark = record fresh { allocated = 95; fired = 1 };
  calls = Call.checking 95 ∷ first_raises.calls;
}

abbrev second_checks : At
second_checks = record second_counts {
  calls = Call.raising_critical (event WatermarkLevel.critical 95) ∷ first_raises.calls;
}

abbrev second_raises : At
second_raises = record second_checks {
  mark = record fresh { allocated = 95; fired = 3 };
  calls = Call.telling_critical (event WatermarkLevel.critical 95) ∷ first_raises.calls;
  edges = WatermarkLevel.critical ∷ WatermarkLevel.warn ∷ [];
}

abbrev told_critical : At
told_critical = record second_raises {
  mark = record second_raises.mark { handler = WatermarkLevel.critical ∷ [] };
  calls = first_raises.calls;
}

abbrev both_told : At
both_told = record second_raises {
  mark = record second_raises.mark { handler = WatermarkLevel.warn ∷ WatermarkLevel.critical ∷ [] };
  calls = [];
}
