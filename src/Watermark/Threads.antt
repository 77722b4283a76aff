-- ===== src/Watermark/Threads.antt =====
-- The threads of a watermark: every atomic operation of a call, and every call of the handler, is a step of
-- its own.
use forge_alloc.Base.{ℕ, ◌+◌, ◌≡◌, List, [], ◌∷◌, ◌++◌, none, Option, leb, if◌then◌else◌}
use forge_alloc.Word.Defs.{saturating_add, wrapping_add, wrapping_sub}
use forge_alloc.Core.Layout.{NonZeroLayout}
use forge_alloc.Core.Allocator.{Allocator}
use forge_alloc.Watermark.{
  WatermarkLevel, WatermarkEvent, WatermarkHandler, Watermark, Crossing, crossing, raise_critical,
  raise_warn, tell_critical, tell_warn, rearm,
}

-- A handler that writes down which of its methods are called, the last one first.
abbrev pub recorder : WatermarkHandler (List WatermarkLevel)
recorder = record {
  on_warn = λ h e. WatermarkLevel.warn ∷ h;
  on_critical = λ h e. WatermarkLevel.critical ∷ h;
  on_oom = λ h e. h;
}

-- Where an allocation that is in progress has got to: before the check of the bytes that it counted, before
-- its `fetch_or`, or before its call of the handler.
pub data Call : Type 0 where
  checking : ℕ → Call
  raising_warn : WatermarkEvent → Call
  raising_critical : WatermarkEvent → Call
  telling_warn : WatermarkEvent → Call
  telling_critical : WatermarkEvent → Call

-- What a check that has read the capacity goes on with.
abbrev pub goes_on : Crossing → List Call → List Call
goes_on Crossing.below rest = rest
goes_on (Crossing.at_warn e) rest = Call.raising_warn e ∷ rest
goes_on (Crossing.at_critical e) rest = Call.raising_critical e ∷ rest

module _ (w : ℕ) {S : Type 0} (al : Allocator S) (capacity : S → Option ℕ) where
  abbrev pub Mark : Type 0
  Mark = Watermark S (List WatermarkLevel)

  -- The calls in progress, in no order; the levels whose bit a `fetch_or` was the first to set since the last
  -- `rearm`, the last one first; and those of the times between the calls of `rearm` before.
  pub record State : Type 0 where
    pub mark : Mark
    pub calls : List Call
    pub edges : List WatermarkLevel
    pub ended : List (List WatermarkLevel)

  pub data Step (s t : State) : Type 0 where
    serves : (inner : S) → t ≡ record s { mark = record s.mark { inner = inner } } → Step s t
    counts :
        (l : NonZeroLayout)
        → t ≡ record s {
          mark = record s.mark { allocated = wrapping_add w s.mark.allocated l.size };
          calls =
              if leb s.mark.warn_threshold_bytes (saturating_add w s.mark.allocated l.size)
              then Call.checking (saturating_add w s.mark.allocated l.size) ∷ s.calls
              else s.calls;
        }
        → Step s t
    checks :
        (before : List Call) (new : ℕ) (after : List Call)
        → s.calls ≡ before ++ Call.checking new ∷ after
        → t ≡ record s {
          calls = before ++ goes_on (crossing w al capacity recorder s.mark new none) after;
        }
        → Step s t
    raises_warn :
        (before : List Call) (e : WatermarkEvent) (after : List Call)
        → s.calls ≡ before ++ Call.raising_warn e ∷ after
        → t ≡ record s {
          mark = (raise_warn w al capacity recorder s.mark).0;
          calls =
              before
              ++ (if (raise_warn w al capacity recorder s.mark).1
                  then Call.telling_warn e ∷ after
                  else after);
          edges =
              if (raise_warn w al capacity recorder s.mark).1
              then WatermarkLevel.warn ∷ s.edges
              else s.edges;
        }
        → Step s t
    raises_critical :
        (before : List Call) (e : WatermarkEvent) (after : List Call)
        → s.calls ≡ before ++ Call.raising_critical e ∷ after
        → t ≡ record s {
          mark = (raise_critical w al capacity recorder s.mark).0;
          calls =
              before
              ++ (if (raise_critical w al capacity recorder s.mark).1
                  then Call.telling_critical e ∷ after
                  else after);
          edges =
              if (raise_critical w al capacity recorder s.mark).1
              then WatermarkLevel.critical ∷ s.edges
              else s.edges;
        }
        → Step s t
    tells_warn :
        (before : List Call) (e : WatermarkEvent) (after : List Call)
        → s.calls ≡ before ++ Call.telling_warn e ∷ after
        → t ≡ record s { mark = tell_warn w al capacity recorder s.mark e; calls = before ++ after }
        → Step s t
    tells_critical :
        (before : List Call) (e : WatermarkEvent) (after : List Call)
        → s.calls ≡ before ++ Call.telling_critical e ∷ after
        → t ≡ record s {
          mark = tell_critical w al capacity recorder s.mark e;
          calls = before ++ after;
        }
        → Step s t
    subtracts :
        (l : NonZeroLayout)
        → t
          ≡ record s { mark = record s.mark { allocated = wrapping_sub w s.mark.allocated l.size } }
        → Step s t
    rearms :
        t ≡ record s {
          mark = rearm w al capacity recorder s.mark;
          edges = [];
          ended = s.edges ∷ s.ended;
        }
        → Step s t

  pub data Reach (s : State) : State → Type 0 where
    here : Reach s s
    next : {t u : State} → Reach s t → Step t u → Reach s u

-- 1 for a level that is the other.
abbrev pub hits : WatermarkLevel → WatermarkLevel → ℕ
hits WatermarkLevel.warn WatermarkLevel.warn = 1
hits WatermarkLevel.critical WatermarkLevel.critical = 1
hits WatermarkLevel.oom WatermarkLevel.oom = 1
hits level other = 0

-- How often a level stands in a list, and in lists.
unfoldable pub count : WatermarkLevel → List WatermarkLevel → ℕ
count level [] = 0
count level (x ∷ xs) = hits level x + count level xs

unfoldable pub count_all : WatermarkLevel → List (List WatermarkLevel) → ℕ
unfolding count
count_all level [] = 0
count_all level (xs ∷ rest) = count level xs + count_all level rest

-- How many calls are about to tell a level.
abbrev pub due : WatermarkLevel → Call → ℕ
due level (Call.checking new) = 0
due level (Call.raising_warn e) = 0
due level (Call.raising_critical e) = 0
due level (Call.telling_warn e) = hits level WatermarkLevel.warn
due level (Call.telling_critical e) = hits level WatermarkLevel.critical

unfoldable pub owed : WatermarkLevel → List Call → ℕ
owed level [] = 0
owed level (c ∷ cs) = due level c + owed level cs
