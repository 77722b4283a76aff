-- ===== src/Watermark/Latch.antt =====
-- What a handler is told, over any order of the steps of all threads.
use forge_alloc.Base.{
  ℕ, ◌+◌, ◌≤◌, ◌≡◌, Bool, Option, if◌then◌else◌, List, [], ◌∷◌, ◌++◌, All, length,
}
use forge_alloc.Core.Allocator.{Allocator}
use forge_alloc.Watermark.{WatermarkThresholds, WatermarkLevel, WatermarkEvent, with_thresholds}
use forge_alloc.Watermark.Threads.{recorder, Call, Mark, State, count, count_all, owed}

-- The bits that are set, and the levels that were crossed since they were clear.
pub data Told : ℕ → List WatermarkLevel → Type 0 where
  nothing : Told 0 []
  warned : Told 1 (WatermarkLevel.warn ∷ [])
  jumped : Told 3 (WatermarkLevel.critical ∷ [])
  rose : Told 3 (WatermarkLevel.critical ∷ WatermarkLevel.warn ∷ [])

abbrev pub IsEpoch : List WatermarkLevel → Type 0
IsEpoch log = (bits : ℕ) × Told bits log

module _ (w : ℕ) {S : Type 0} (al : Allocator S) (capacity : S → Option ℕ) where
  -- The bits tell what was crossed since the last `rearm`, and every crossing is told or about to be told,
  -- once.
  pub record Sound (s : State w al capacity) : Type 0 where
    pub now : Told s.mark.fired s.edges
    pub past : All IsEpoch s.ended
    pub once :
        (level : WatermarkLevel)
        → count level s.mark.handler + owed level s.calls
          ≡ count level s.edges + count_all level s.ended
    pub bounded :
        (level : WatermarkLevel)
        → count level s.mark.handler + owed level s.calls ≤ 1 + length s.ended

  -- The state after that `fetch_or`.
  abbrev raised_warn :
      State w al capacity
      → List Call
      → WatermarkEvent
      → List Call
      → Mark w al capacity × Bool
      → State w al capacity
  raised_warn s before e after x = record s {
    mark = x.0;
    calls = before ++ (if x.1 then Call.telling_warn e ∷ after else after);
    edges = if x.1 then WatermarkLevel.warn ∷ s.edges else s.edges;
  }

  -- The state after that `fetch_or`.
  abbrev raised_critical :
      State w al capacity
      → List Call
      → WatermarkEvent
      → List Call
      → Mark w al capacity × Bool
      → State w al capacity
  raised_critical s before e after x = record s {
    mark = x.0;
    calls = before ++ (if x.1 then Call.telling_critical e ∷ after else after);
    edges = if x.1 then WatermarkLevel.critical ∷ s.edges else s.edges;
  }

  abbrev pub start : S → WatermarkThresholds → State w al capacity
  start inner limits = record {
    mark = with_thresholds w al capacity recorder inner [] limits;
    calls = [];
    edges = [];
    ended = [];
  }
