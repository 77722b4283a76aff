-- ===== src/Watermark/Gate.antt =====
-- The gate before the check of the thresholds never keeps a check from firing.
use native.Mathlib.Nat.{div-lt_iff_lt-mul, mul-le-mul_right, mul_comm}
use forge_alloc.Base.{
  ℕ, ◌*◌, ◌/◌, ◌≤◌, ◌<◌, ◌≡◌, ◌≢◌, inl, inr, arith, min, Bool-cases, Option, none, some,
  Option-cases, leb, ◌==◌,
}
use forge_alloc.Word.Defs.{usize_max, saturating_add, wrapping_add}
use forge_alloc.Core.Layout.{NonZeroLayout}
use forge_alloc.Core.Range.{Block}
use forge_alloc.Core.Allocator.{Allocator}
use forge_alloc.Watermark.{
  WatermarkThresholds, WatermarkHandler, Watermark, unwrap_or, gate_of, current_capacity, crossing,
  check_and_fire, count_served, allocate,
}

-- Bytes below the gate are a percentage below both thresholds, of the capacity then and of a larger one.
below_gate :
    (w c0 cap new : ℕ) (t : WatermarkThresholds)
    → c0 ≢ usize_max w
    → c0 ≤ cap
    → 1 ≤ cap
    → new < gate_of w c0 t
    → (min (new * 100 / cap) 255 < t.critical_pct) × (min (new * 100 / cap) 255 < t.warn_pct)
unfolding gate_of
below_gate w c0 cap new t bounded grows pos below =
    let pct : ℕ = min (min t.warn_pct 100) (min t.critical_pct 100) in
    let gate : new < c0 * pct / 100 = ground (arith, below, bounded) in
    let scaled : new * 100 < cap * pct =
      omega (arith, gate, mul-le-mul_right {m = c0} {n = cap} pct grows) in
    let share : new * 100 / cap < pct =
      (div-lt_iff_lt-mul pos).1 (omega (arith, scaled, mul_comm cap pct)) in
    (omega (arith, share), omega (arith, share))

module _ (w : ℕ) {S H : Type 0} (al : Allocator S) (capacity : S → Option ℕ)
    (on : WatermarkHandler H) where
  -- The call with the check made every time.
  abbrev pub allocate_always : Watermark S H → NonZeroLayout → Watermark S H × Option Block
  allocate_always m l =
      let (s, got) = al.allocate m.inner l in
      let m' : Watermark S H = record m { inner = s } in
      elim got [
        | some b ↦ (
          check_and_fire w al capacity on
              (record m' { allocated = wrapping_add w m.allocated l.size })
              (saturating_add w m.allocated l.size) none,
          some b,
        )
        | none ↦ allocate w al capacity on m l
      ]

  quiet :
      (m : Watermark S H) (new c0 : ℕ)
      → m.warn_threshold_bytes ≡ gate_of w c0 m.thresholds
      → c0 ≢ usize_max w
      → c0 ≤ current_capacity w al capacity on m
      → new < m.warn_threshold_bytes
      → check_and_fire w al capacity on m new none ≡ m
  unfolding check_and_fire crossing
  quiet m new c0 made bounded grows below =
      elim (Bool-cases (current_capacity w al capacity on m == 0)) [
        | inl empty ↦ ground (arith, empty)
        | inr some_bytes ↦
            let (no_critical, no_warn) =
              below_gate w c0 (current_capacity w al capacity on m) new m.thresholds bounded grows
                (ground (arith, some_bytes)) (omega (arith, made, below)) in
            ground (arith, some_bytes, no_critical, no_warn)
      ]

  now :
      (m : Watermark S H) {c0 : ℕ}
      → c0 ≤ unwrap_or (capacity m.inner) m.capacity_bytes
      → c0 ≤ current_capacity w al capacity on m
  unfolding current_capacity
  now m h = h

  -- For a gate that was computed from a capacity that the inner allocator reported, and a capacity since
  -- that is not smaller: the call does what it would do if it checked the thresholds every time.
  pub allocate-allocate_always :
      (m : Watermark S H) (l : NonZeroLayout) (c0 : ℕ)
      → m.warn_threshold_bytes ≡ gate_of w c0 m.thresholds
      → c0 ≢ usize_max w
      → c0 ≤ unwrap_or (capacity (al.allocate m.inner l).0) m.capacity_bytes
      → allocate w al capacity on m l ≡ allocate_always m l
  unfolding allocate count_served
  allocate-allocate_always m l c0 made bounded grows =
      elim (Option-cases (al.allocate m.inner l).1) [
        | inl full ↦ ground (arith, full)
        | inr (b, got) ↦
            elim (Bool-cases (leb m.warn_threshold_bytes (saturating_add w m.allocated l.size))) [
              | inl passes ↦ ground (arith, got, passes)
              | inr under ↦
                  let counted : Watermark S H = record m {
                    inner = (al.allocate m.inner l).0;
                    allocated = wrapping_add w m.allocated l.size;
                  } in
                  let q : check_and_fire w al capacity on counted
                        (saturating_add w m.allocated l.size) none
                      ≡ counted =
                    quiet counted (saturating_add w m.allocated l.size) c0 made bounded
                      (now counted grows) (ground (arith, under)) in
                  ground (arith, got, under, q)
            ]
      ]
