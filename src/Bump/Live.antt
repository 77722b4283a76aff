-- ===== src/Bump/Live.antt =====
-- The live blocks of an arena, over any run of its operations.
use forge_alloc.Base.{
  ℕ, ◌+◌, ◌≤◌, ◌≡◌, subst, arith, inl, inr, true, some, List, [], ◌∷◌, ◌++◌, All, All-map, All-and,
  AllPairs, keep, All-middle, All-insert, All-keep, AllPairs-keep, AllPairs-middle, AllPairs-insert,
}
use forge_alloc.Word.Align.{IsAlign, IsAligned}
use forge_alloc.Core.Layout.{NonZeroLayout}
use forge_alloc.Core.Memory.{Memory}
use forge_alloc.Core.Range.{FixedRange, IsFixed, Block}
use forge_alloc.Bump.{BumpArena, new, allocate, deallocate, grow, reset, rewind_to}
use forge_alloc.Bump.Allocate.{Issued, allocate-Issued, allocate-fails, new-IsValid}
use forge_alloc.Bump.Grow.{Grown, grow-Grown}
use forge_alloc.Bump.Steps.{
  Disjoint, Disjoint-flip, State, ends_by, Step, Reach, Inside, Safe, Inside-mono, Disjoint-behind,
  Disjoint-grown,
}

module _ (w : ℕ) {B : Type 0} (r : FixedRange B) where
  module _ (fixed : IsFixed r) where
    allocates-Safe :
        (s t : State B) (l : NonZeroLayout) (b : Block)
        → IsAlign w l.align
        → 1 ≤ l.size
        → allocate w r s.arena l ≡ (t.arena, some b)
        → t.live ≡ b ∷ s.live
        → Safe w r s
        → Safe w r t
    allocates-Safe s t l b al pos e live h =
        let i : Issued w r s.arena l t.arena b = allocate-Issued w r fixed s.arena l h.valid al e in
        record {
          valid = i.valid;
          inside = rw live (
            record {
              from = omega (arith, i.after);
              nonempty = omega (arith, i.length);
              to = omega (arith, i.cursor, i.base);
            },
            All-map (Inside w r s.arena) (Inside w r t.arena) s.live
                (λ c. Inside-mono w r s.arena t.arena c i.base (omega (arith, i.cursor, i.after)))
                h.inside,
          );
          apart = rw live (
            All-map (Inside w r s.arena) (Disjoint b) s.live
                (λ c. Disjoint-behind w r s.arena b c i.after) h.inside,
            h.apart,
          );
        }

    module _ {a a' : BumpArena B} {m m' : Memory} {old b : Block} {l : NonZeroLayout}
        (g : Grown w r a m old.address
          (record { size = old.length; align = l.align })
          l
          a'
          m'
          b) where
      grown_cursor : old.length ≤ l.size → a.cursor ≤ a'.cursor
      grown_cursor le = elim g.place [
        | inl (at, top) ↦ omega (arith, at, top, g.ends, g.length)
        | inr behind ↦ omega (arith, behind, g.ends)
      ]

      grown_from : r.base a.backing ≤ old.address → r.base a'.backing ≤ b.address
      grown_from h = elim g.place [
        | inl (at, top) ↦ omega (arith, at, g.base)
        | inr behind ↦ omega (arith, behind, g.base)
      ]

      grown_apart : (c : Block) → Disjoint old c → Inside w r a c → Disjoint b c
      grown_apart c d i = elim g.place [
        | inl (at, top) ↦ Disjoint-grown w r a old b c at top d i
        | inr behind ↦ Disjoint-behind w r a b c behind i
      ]

    grows-Safe :
        (s t : State B) (before : List Block) (old : Block) (after : List Block) (l : NonZeroLayout)
        (b : Block) (m m' : Memory)
        → IsAlign w l.align
        → IsAligned old.address l.align
        → old.length ≤ l.size
        → grow w r s.arena m old.address (record { size = old.length; align = l.align }) l
          ≡ (t.arena, m', some b)
        → s.live ≡ before ++ old ∷ after
        → t.live ≡ before ++ b ∷ after
        → Safe w r s
        → Safe w r t
    grows-Safe s t before old after l b m m' al at le e live live' h =
        let (was, others) =
          All-middle (Inside w r s.arena) before old after
            (subst (All (Inside w r s.arena)) live h.inside) in
        let (apart, rest) =
          AllPairs-middle Disjoint Disjoint-flip before old after
            (subst (AllPairs Disjoint) live h.apart) in
        let g : Grown w r s.arena m old.address (record { size = old.length; align = l.align }) l
            t.arena m' b =
          grow-Grown w r fixed s.arena m old.address (record { size = old.length; align = l.align })
            l h.valid al was.from was.to at e in
        let grown : s.arena.cursor ≤ t.arena.cursor = grown_cursor g le in
        record {
          valid = g.valid;
          inside = rw live' (
              All-insert (Inside w r t.arena) before b after
                (record {
                  from = grown_from g was.from;
                  nonempty = omega (arith, g.length, was.nonempty, le);
                  to = omega (arith, g.ends, g.base);
                })
                (All-map (Inside w r s.arena) (Inside w r t.arena) (before ++ after)
                  (λ c. Inside-mono w r s.arena t.arena c g.base grown) others));
          apart = rw live' (
              AllPairs-insert Disjoint Disjoint-flip before b after
                (All-map (λ c. Disjoint old c × Inside w r s.arena c) (Disjoint b) (before ++ after)
                  (λ c p. grown_apart g c p.0 p.1)
                  (All-and (Disjoint old) (Inside w r s.arena) (before ++ after) apart others))
                rest);
        }

    rewound-Inside :
        (a : BumpArena B) (mark : ℕ) (live : List Block)
        → All (Inside w r a) live
        → All (Inside w r (rewind_to a mark)) (keep (ends_by (r.base a.backing + mark)) live)
    unfolding rewind_to ends_by
    rewound-Inside a mark live h =
        All-map (λ b. Inside w r a b × (ends_by (r.base a.backing + mark) b ≡ true))
          (Inside w r (rewind_to a mark)) (keep (ends_by (r.base a.backing + mark)) live)
          (λ b p. record { from = p.0.from; nonempty = p.0.nonempty; to = ground (arith, p.1) })
          (All-keep (Inside w r a) (ends_by (r.base a.backing + mark)) live h)

    -- Every operation of a caller who keeps to the safety conditions keeps the live blocks inside the
    -- arena, before the cursor, and pairwise disjoint.
    pub Step-Safe : (s t : State B) → Step w r s t → Safe w r s → Safe w r t
    unfolding deallocate rewind_to reset
    Step-Safe s t (Step.allocates l b al pos e live) h = allocates-Safe s t l b al pos e live h
    Step-Safe s t (Step.fails l al e live) h =
        let (v, c, k, base) = allocate-fails w r fixed s.arena l h.valid al e in
        record {
          valid = v;
          inside = rw live (
              All-map (Inside w r s.arena) (Inside w r t.arena) s.live
                (λ x. Inside-mono w r s.arena t.arena x base (omega (arith, c))) h.inside);
          apart = rw live h.apart;
        }
    Step-Safe s t (Step.grows before old after l b m m' al at le e live live') h =
        grows-Safe s t before old after l b m m' al at le e live live' h
    Step-Safe s t (Step.frees before old after l e live live') h =
        let (was, others) =
          All-middle (Inside w r s.arena) before old after
            (subst (All (Inside w r s.arena)) live h.inside) in
        let (apart, rest) =
          AllPairs-middle Disjoint Disjoint-flip before old after
            (subst (AllPairs Disjoint) live h.apart) in
        record { valid = rw e h.valid; inside = rw (live', e) others; apart = rw live' rest }
    Step-Safe s t (Step.rewinds mark le e live) h = record {
      valid = rw e (record {
        covers = h.valid.covers;
        inside = h.valid.inside;
        below = omega (arith, le, h.valid.below);
      });
      inside = rw (live, e) (rewound-Inside s.arena mark s.live h.inside);
      apart =
          rw live (AllPairs-keep Disjoint (ends_by (r.base s.arena.backing + mark)) s.live h.apart);
    }
    Step-Safe s t (Step.resets e live) h = record {
      valid =
          rw e (record { covers = h.valid.covers; inside = h.valid.inside; below = omega arith });
      inside = rw live tt;
      apart = rw live tt;
    }

    Reach-Safe : {s t : State B} → Safe w r s → Reach w r s t → Safe w r t
    Reach-Safe h Reach.here = h
    Reach-Safe h (Reach.next {t = t} {u = u} p st) = Step-Safe t u st (Reach-Safe h p)

    -- After every run of allocations that succeed or fail, growths, frees, rewinds and resets from a new
    -- arena, the live blocks are pairwise disjoint stretches of the arena before the cursor.
    pub new-Reach-Safe :
        (backing : B) (a : BumpArena B) {t : State B}
        → new w r backing ≡ some a
        → Reach w r (record { arena = a; live = [] }) t
        → Safe w r t
    new-Reach-Safe backing a e p =
        Reach-Safe (record { valid = (new-IsValid w r backing e).0; inside = tt; apart = tt }) p
