-- ===== src/SharedBump/Threads.antt =====
-- Any number of threads that allocate from one arena, in any order of their rounds. A thread is named by
-- a number. A relaxed read may see an older cursor; an exchange that succeeds sees the newest.
use forge_alloc.Base.{
  ℕ, ◌+◌, ◌^◌, ◌≤◌, ◌<◌, ◌≡◌, inl, inr, refl, sym, subst, ◌∙◌, arith, true, false, none, some,
  Option-cases, Bool-cases, List, [], ◌∷◌, All, All-map, AllPairs, ◌==◌, if◌then◌else◌,
}
use forge_alloc.Word.Align.{IsAlign, IsAligned}
use forge_alloc.Core.Layout.{NonZeroLayout}
use forge_alloc.Core.Range.{FixedRange, Block}
use forge_alloc.Cursor.{Fits, place-Fits, place-none}
use forge_alloc.Bump.Steps.{Disjoint}
use forge_alloc.SharedBump.{SharedBumpArena, Turn, Outcome, offsets, exchanges, attempt, new}
use forge_alloc.SharedBump.Place.{offsets-place}

-- What a thread is doing: nothing, or the loop of a call with the cursor that it has read.
pub data Phase : Type 0 where
  idle : Phase
  trying : NonZeroLayout → ℕ → Phase

pub record Grant : Type 0 where
  pub block : Block
  pub layout : NonZeroLayout

pub record State (B : Type 0) : Type 0 where
  pub arena : SharedBumpArena B
  pub threads : ℕ → Phase
  pub granted : List Grant

abbrev pub set_thread : (ℕ → Phase) → ℕ → Phase → ℕ → Phase
set_thread threads i p j = if j == i then p else threads j

-- What a round makes of the state.
unfoldable pub settle : {B : Type 0} → State B → ℕ → NonZeroLayout → Outcome → State B
settle s i l (Outcome.issued b end) = record {
  arena = record s.arena { cursor = end };
  threads = set_thread s.threads i Phase.idle;
  granted = record { block = b; layout = l } ∷ s.granted;
}
settle s i l Outcome.refused = record s { threads = set_thread s.threads i Phase.idle }
settle s i l (Outcome.retry seen) = record s {
  threads = set_thread s.threads i (Phase.trying l seen);
}

module _ (w : ℕ) {B : Type 0} (r : FixedRange B) where
  -- One round of the loop of a thread that has read `cur`.
  abbrev pub round : State B → NonZeroLayout → ℕ → Turn → Outcome
  round s l cur t = attempt w (r.base s.arena.backing) s.arena.capacity l cur t

  pub data Step (s t : State B) : Type 0 where
    calls :
        (i : ℕ) (l : NonZeroLayout) (cur : ℕ)
        → s.threads i ≡ Phase.idle
        → IsAlign w l.align
        → cur ≤ s.arena.cursor
        → t ≡ record s { threads = set_thread s.threads i (Phase.trying l cur) }
        → Step s t
    rounds :
        (i : ℕ) (l : NonZeroLayout) (cur : ℕ) (turn : Turn)
        → s.threads i ≡ Phase.trying l cur
        → turn.seen ≤ s.arena.cursor
        → (exchanges cur turn ≡ true → turn.seen ≡ s.arena.cursor)
        → t ≡ settle s i l (round s l cur turn)
        → Step s t

  pub data Reach (s : State B) : State B → Type 0 where
    here : Reach s s
    next : {t u : State B} → Reach s t → Step t u → Reach s u

  pub record Granted (a : SharedBumpArena B) (g : Grant) : Type 0 where
    pub from : r.base a.backing ≤ g.block.address
    pub aligned : IsAligned g.block.address g.layout.align
    pub size : g.block.length ≡ g.layout.size
    pub to : g.block.address + g.block.length ≤ r.base a.backing + a.cursor

  -- The layout of a call is valid, and the cursor that its thread has read is an older one.
  abbrev pub Behind : ℕ → Phase → Type 0
  Behind cursor Phase.idle = Unit {0}
  Behind cursor (Phase.trying l cur) = IsAlign w l.align × (cur ≤ cursor)

  pub record Safe (s : State B) : Type 0 where
    pub inside : r.base s.arena.backing + s.arena.capacity < 2 ^ w
    pub below : s.arena.cursor ≤ s.arena.capacity
    pub granted : All (Granted s.arena) s.granted
    pub apart : AllPairs (λ g h. Disjoint g.block h.block) s.granted
    pub behind : (i : ℕ) → Behind s.arena.cursor (s.threads i)

  Behind-mono : (c d : ℕ) (p : Phase) → c ≤ d → Behind c p → Behind d p
  Behind-mono c d Phase.idle h b = tt
  Behind-mono c d (Phase.trying l cur) h b = (b.0, omega (arith, b.1))

  set_thread-Behind :
      (c d i : ℕ) (threads : ℕ → Phase) (p : Phase)
      → c ≤ d
      → Behind d p
      → ((j : ℕ) → Behind c (threads j))
      → (j : ℕ) → Behind d (set_thread threads i p j)
  set_thread-Behind c d i threads p h new old j = elim (Bool-cases (j == i)) [
    | inl same ↦ rw same new
    | inr other ↦ rw other (Behind-mono c d (threads j) h (old j))
  ]

  module _ (s : State B) (safe : Safe s) (i : ℕ) (l : NonZeroLayout) (cur : ℕ)
      (al : IsAlign w l.align) (le : cur ≤ s.arena.cursor) where
    issued-Safe :
        (off end : ℕ)
        → Fits (r.base s.arena.backing) cur s.arena.capacity l off end
        → cur ≡ s.arena.cursor
        → Safe (
            settle s i l (
              Outcome.issued
                (record { address = r.base s.arena.backing + off; length = l.size })
                end))
    unfolding settle
    issued-Safe off end f at = record {
      inside = safe.inside;
      below = f.within;
      granted = (
        record { from = omega arith; aligned = f.aligned; size = refl; to = omega (arith, f.ends) },
        All-map (Granted s.arena) (Granted (record s.arena { cursor = end })) s.granted
            (λ g h. record {
              from = h.from;
              aligned = h.aligned;
              size = h.size;
              to = omega (arith, h.to, f.ends, f.after, at);
            })
            safe.granted,
      );
      apart = (
        All-map (Granted s.arena)
            (λ g.
              Disjoint (record { address = r.base s.arena.backing + off; length = l.size }) g.block)
            s.granted (λ g h. inr (omega (arith, h.to, f.after, at))) safe.granted,
        safe.apart,
      );
      behind =
          set_thread-Behind s.arena.cursor end i s.threads Phase.idle
            (omega (arith, f.ends, f.after, at)) tt safe.behind;
    }

    waits-Safe :
        (p : Phase)
        → Behind s.arena.cursor p
        → Safe (record s { threads = set_thread s.threads i p })
    waits-Safe p b = record {
      inside = safe.inside;
      below = safe.below;
      granted = safe.granted;
      apart = safe.apart;
      behind =
          set_thread-Behind s.arena.cursor s.arena.cursor i s.threads p (omega arith) b safe.behind;
    }

    round-Safe :
        (turn : Turn)
        → turn.seen ≤ s.arena.cursor
        → (exchanges cur turn ≡ true → turn.seen ≡ s.arena.cursor)
        → Safe (settle s i l (round s l cur turn))
    unfolding attempt settle
    round-Safe turn seen newest =
        elim (Option-cases (offsets w (r.base s.arena.backing) cur s.arena.capacity l)) [
          | inl full ↦
              subst (λ (o : Outcome). Safe (settle s i l o)) (sym (refuses full))
                (waits-Safe Phase.idle tt)
          | inr ((off, end), at) ↦ elim (Bool-cases (exchanges cur turn)) [
            | inl wins ↦
                let f : Fits (r.base s.arena.backing) cur s.arena.capacity l off end =
                  place-Fits w (r.base s.arena.backing) cur s.arena.capacity l safe.inside
                    (omega (arith, le, safe.below)) al
                    (sym (offsets-place w (r.base s.arena.backing) cur s.arena.capacity l al)
                      ∙ at) in
                subst (λ (o : Outcome). Safe (settle s i l o)) (sym (issues off end at wins))
                  (issued-Safe off end f (ground (arith, wins, newest wins)))
            | inr fails ↦
                subst (λ (o : Outcome). Safe (settle s i l o)) (sym (retries off end at fails))
                  (waits-Safe (Phase.trying l turn.seen) (al, seen))
          ]
        ]
      where
        refuses :
            offsets w (r.base s.arena.backing) cur s.arena.capacity l ≡ none
            → round s l cur turn ≡ Outcome.refused
        refuses full = ground (arith, full)

        issues :
            (off end : ℕ)
            → offsets w (r.base s.arena.backing) cur s.arena.capacity l ≡ some (off, end)
            → exchanges cur turn ≡ true
            → round s l cur turn
              ≡ Outcome.issued
                  (record { address = r.base s.arena.backing + off; length = l.size })
                  end
        issues off end at wins = ground (arith, at, wins)

        retries :
            (off end : ℕ)
            → offsets w (r.base s.arena.backing) cur s.arena.capacity l ≡ some (off, end)
            → exchanges cur turn ≡ false
            → round s l cur turn ≡ Outcome.retry turn.seen
        retries off end at fails = ground (arith, at, fails)

  Step-Safe : (s t : State B) → Step s t → Safe s → Safe t
  Step-Safe s t (Step.calls i l cur free al le e) h =
      subst Safe (sym e) (waits-Safe s h i l cur al le (Phase.trying l cur) (al, le))
  Step-Safe s t (Step.rounds i l cur turn phase seen newest e) h =
      let (al, le) = subst (Behind s.arena.cursor) phase (h.behind i) in
      subst Safe (sym e) (round-Safe s h i l cur al le turn seen newest)

  Reach-Safe : {s t : State B} → Safe s → Reach s t → Safe t
  Reach-Safe h here = h
  Reach-Safe h (next {t} {u} path st) = Step-Safe t u st (Reach-Safe h path)

  -- A new arena, no thread in a call.
  abbrev pub start : SharedBumpArena B → State B
  start a = record { arena = a; threads = λ i. Phase.idle; granted = [] }

  -- For any number of threads and every interleaving of the rounds of their calls, with failures of the
  -- exchange for no reason and reads of older cursors: over a backing that ends below the top of the
  -- address space, the blocks that a new arena has granted are aligned, of the sizes that were asked for,
  -- pairwise disjoint and inside the arena before its cursor, and the cursor is within the capacity.
  pub threads-Safe :
      (backing : B) (a : SharedBumpArena B) (t : State B)
      → r.base backing + r.size backing < 2 ^ w
      → new r backing ≡ some a
      → Reach (start a) t
      → Safe t
  unfolding new
  threads-Safe backing a t inside made path =
      let e : a ≡ record { backing = backing; capacity = r.size backing; cursor = 0 } =
        ground (arith, made) in
      Reach-Safe
        (subst (λ (x : SharedBumpArena B). Safe (start x)) (sym e)
          (record {
            inside = inside;
            below = omega arith;
            granted = tt;
            apart = tt;
            behind = λ i. tt;
          }))
        path

  -- A round of a call that is refused, at a cursor that may be an older one, in a state that is safe: no
  -- aligned block of this size fits behind the newest cursor either.
  pub refused_complete :
      (s : State B) (i : ℕ) (l : NonZeroLayout) (cur : ℕ) (turn : Turn) (offset : ℕ)
      → Safe s
      → s.threads i ≡ Phase.trying l cur
      → round s l cur turn ≡ Outcome.refused
      → s.arena.cursor ≤ offset
      → IsAligned (r.base s.arena.backing + offset) l.align
      → s.arena.capacity < offset + l.size
  unfolding attempt
  refused_complete s i l cur turn offset safe phase refuses ge aligned =
      let (al, le) = subst (Behind s.arena.cursor) phase (safe.behind i) in
      place-none w (r.base s.arena.backing) cur s.arena.capacity l safe.inside
        (omega (arith, le, safe.below)) al offset
        (sym (offsets-place w (r.base s.arena.backing) cur s.arena.capacity l al)
          ∙ ground (arith, refuses))
        (omega (arith, le, ge)) aligned
