-- ===== src/Bump/Steps.antt =====
-- The steps of a caller of an arena, and the blocks that it has handed out and not yet reclaimed.
use forge_alloc.Base.{
  ℕ, ◌+◌, ◌≤◌, ◌≡◌, arith, ◌⊎◌, inl, inr, Bool, none, some, List, [], ◌∷◌, ◌++◌, leb, All, AllPairs,
  keep,
}
use forge_alloc.Word.Align.{IsAlign, IsAligned}
use forge_alloc.Core.Layout.{NonZeroLayout}
use forge_alloc.Core.Memory.{Memory}
use forge_alloc.Core.Range.{FixedRange, Block}
use forge_alloc.Bump.{BumpArena, allocate, deallocate, grow, reset, rewind_to}
use forge_alloc.Bump.Allocate.{IsValid}

-- No byte belongs to both blocks.
abbrev pub Disjoint : Block → Block → Type 0
Disjoint b c = (b.address + b.length ≤ c.address) ⊎ (c.address + c.length ≤ b.address)

pub Disjoint-flip : (b c : Block) → Disjoint b c → Disjoint c b
Disjoint-flip b c (inl h) = inr h
Disjoint-flip b c (inr h) = inl h

pub record State (B : Type 0) : Type 0 where
  pub arena : BumpArena B
  pub live : List Block

-- The block ends at or before `limit`.
unfoldable pub ends_by : ℕ → Block → Bool
ends_by limit b = leb (b.address + b.length) limit

module _ (w : ℕ) {B : Type 0} (r : FixedRange B) where
  -- What a caller may do: the safety conditions of the methods are the premises.
  pub data Step (s t : State B) : Type 0 where
    allocates :
        (l : NonZeroLayout) (b : Block)
        → IsAlign w l.align
        → 1 ≤ l.size
        → allocate w r s.arena l ≡ (t.arena, some b)
        → t.live ≡ b ∷ s.live
        → Step s t
    fails :
        (l : NonZeroLayout)
        → IsAlign w l.align
        → allocate w r s.arena l ≡ (t.arena, none)
        → t.live ≡ s.live
        → Step s t
    grows :
        (before : List Block) (old : Block) (after : List Block) (l : NonZeroLayout) (b : Block)
        (m m' : Memory)
        → IsAlign w l.align
        → IsAligned old.address l.align
        → old.length ≤ l.size
        → grow w r s.arena m old.address (record { size = old.length; align = l.align }) l
          ≡ (t.arena, m', some b)
        → s.live ≡ before ++ old ∷ after
        → t.live ≡ before ++ b ∷ after
        → Step s t
    frees :
        (before : List Block) (old : Block) (after : List Block) (l : NonZeroLayout)
        → t.arena ≡ deallocate w r s.arena old.address l
        → s.live ≡ before ++ old ∷ after
        → t.live ≡ before ++ after
        → Step s t
    rewinds :
        (mark : ℕ)
        → mark ≤ s.arena.cursor
        → t.arena ≡ rewind_to s.arena mark
        → t.live ≡ keep (ends_by (r.base s.arena.backing + mark)) s.live
        → Step s t
    resets : t.arena ≡ reset s.arena → t.live ≡ [] → Step s t

  pub data Reach (s : State B) : State B → Type 0 where
    here : Reach s s
    next : {t u : State B} → Reach s t → Step t u → Reach s u

  -- A block is a nonempty stretch between the base and the cursor.
  pub record Inside (a : BumpArena B) (b : Block) : Type 0 where
    pub from : r.base a.backing ≤ b.address
    pub nonempty : 1 ≤ b.length
    pub to : b.address + b.length ≤ r.base a.backing + a.cursor

  pub record Safe (s : State B) : Type 0 where
    pub valid : IsValid w r s.arena
    pub inside : All (Inside s.arena) s.live
    pub apart : AllPairs Disjoint s.live

  pub Inside-mono :
      (a a' : BumpArena B) (b : Block)
      → r.base a'.backing ≡ r.base a.backing
      → a.cursor ≤ a'.cursor
      → Inside a b
      → Inside a' b
  Inside-mono a a' b e h i = record {
    from = omega (arith, i.from, e);
    nonempty = i.nonempty;
    to = omega (arith, i.to, e);
  }

  -- A block behind the cursor is apart from every block before it.
  pub Disjoint-behind :
      (a : BumpArena B) (b c : Block)
      → r.base a.backing + a.cursor ≤ b.address
      → Inside a c
      → Disjoint b c
  Disjoint-behind a b c h i = inr (omega (arith, i.to))

  -- The block at the cursor may grow: it stays apart from the others.
  pub Disjoint-grown :
      (a : BumpArena B) (old b c : Block)
      → b.address ≡ old.address
      → old.address + old.length ≡ r.base a.backing + a.cursor
      → Disjoint old c
      → Inside a c
      → Disjoint b c
  Disjoint-grown a old b c e top (inl h) i = absurd (omega (arith, i.to, i.nonempty))
  Disjoint-grown a old b c e top (inr h) i = inr (omega arith)
