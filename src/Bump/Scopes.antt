-- ===== src/Bump/Scopes.antt =====
-- Scopes: whatever is allocated in one, dropping it puts the cursor back.
use forge_alloc.Base.{ℕ, ◌≤◌, ◌≡◌, refl, ◌∙◌, arith, inl, inr, Option-cases}
use forge_alloc.Word.Align.{IsAlign}
use forge_alloc.Core.Layout.{NonZeroLayout}
use forge_alloc.Core.Range.{FixedRange, IsFixed}
use forge_alloc.Bump.{BumpArena, Scope, allocate, scope, nested, drop_scope}
use forge_alloc.Bump.Allocate.{IsValid, Issued, allocate-Issued, allocate-fails}

-- What a program does with a scope: nothing more, an allocation and then the rest, or a scope inside
-- it and then the rest.
pub data Body : Type 0 where
  done : Body
  take : NonZeroLayout → Body → Body
  inner : Body → Body → Body

-- The alignments are powers of two.
abbrev pub IsLegal : ℕ → Body → Type 0
IsLegal w done = Unit {0}
IsLegal w (take l rest) = IsAlign w l.align × IsLegal w rest
IsLegal w (inner body rest) = IsLegal w body × IsLegal w rest

module _ (w : ℕ) {B : Type 0} (r : FixedRange B) where
  pub run_body : Scope B → Body → Scope B
  run_body s done = s
  run_body s (take l rest) = run_body (record s { arena = (allocate w r s.arena l).0 }) rest
  run_body s (inner body rest) =
      run_body (record s { arena = drop_scope (run_body (nested s) body) }) rest

  -- The arena is valid and reaches from the scope's mark on; `base` is where the region starts.
  pub record IsOpen (base mark : ℕ) (s : Scope B) : Type 0 where
    pub valid : IsValid w r s.arena
    pub same : s.mark ≡ mark
    pub above : mark ≤ s.arena.cursor
    pub based : r.base s.arena.backing ≡ base

  module _ (fixed : IsFixed r) where
    take-IsOpen :
        (base mark : ℕ) (s : Scope B) (l : NonZeroLayout)
        → IsAlign w l.align
        → IsOpen base mark s
        → IsOpen base mark (record s { arena = (allocate w r s.arena l).0 })
    take-IsOpen base mark s l al o = elim (Option-cases (allocate w r s.arena l).1) [
      | inl refused ↦
          let (v, c, _, b) =
            allocate-fails w r fixed s.arena l o.valid al {a' = (allocate w r s.arena l).0}
              (ground (arith, refused)) in
          record {
            valid = v;
            same = o.same;
            above = omega (arith, c, o.above);
            based = b ∙ o.based;
          }
      | inr (b, got) ↦
          let i : Issued w r s.arena l (allocate w r s.arena l).0 b =
            allocate-Issued w r fixed s.arena l o.valid al (ground (arith, got)) in
          record {
            valid = i.valid;
            same = o.same;
            above = omega (arith, i.after, i.cursor, i.base, o.above);
            based = i.base ∙ o.based;
          }
    ]

    pub run_body-IsOpen :
        (base mark : ℕ) (s : Scope B) (body : Body)
        → IsLegal w body
        → IsOpen base mark s
        → IsOpen base mark (run_body s body)
    unfolding run_body drop_scope nested
    run_body-IsOpen base mark s done h o = o
    run_body-IsOpen base mark s (take l rest) h o =
        run_body-IsOpen base mark (record s { arena = (allocate w r s.arena l).0 }) rest h.1
          (take-IsOpen base mark s l h.0 o)
    run_body-IsOpen base mark s (inner body rest) h o =
        let i : IsOpen base s.arena.cursor (run_body (nested s) body) =
          run_body-IsOpen base s.arena.cursor (nested s) body h.0
            (record { valid = o.valid; same = refl; above = omega arith; based = o.based }) in
        run_body-IsOpen base mark (record s { arena = drop_scope (run_body (nested s) body) }) rest
          h.1
          (record {
            valid = record {
              covers = i.valid.covers;
              inside = i.valid.inside;
              below = omega (arith, i.same, i.above, i.valid.below);
            };
            same = o.same;
            above = omega (arith, i.same, o.above);
            based = i.based;
          })

    -- Opening a scope on a valid arena, running any body in it, with scopes nested to any depth and
    -- allocations that fail or succeed, and dropping it leaves the arena valid with the cursor where
    -- it was; the mark is not ahead of the cursor at the end.
    pub scope_restores :
        (a : BumpArena B) (body : Body)
        → IsValid w r a
        → IsLegal w body
        → let s = run_body (scope a) body in
          ((drop_scope s).cursor ≡ a.cursor)
          × IsValid w r (drop_scope s)
          × (r.base (drop_scope s).backing ≡ r.base a.backing)
          × (s.mark ≤ s.arena.cursor)
    unfolding scope drop_scope
    scope_restores a body v h =
        let o : IsOpen (r.base a.backing) a.cursor (run_body (scope a) body) =
          run_body-IsOpen (r.base a.backing) a.cursor (scope a) body h
            (record { valid = v; same = refl; above = omega arith; based = refl }) in
        (
          o.same,
          record {
            covers = o.valid.covers;
            inside = o.valid.inside;
            below = omega (arith, o.same, o.above, o.valid.below);
          },
          o.based,
          omega (arith, o.same, o.above),
        )
