-- ===== src/SharedBump.antt =====
-- crates/forge-alloc/src/layout/shared_bump.rs: `SharedBumpArena<B>`, whose cursor is one atomic word.
-- A `Turn` is what one `compare_exchange_weak` meets: the cursor that it sees, and whether it fails
-- for no reason. The base of the backing and the capacity do not change while threads allocate.
pub mod Place
pub mod Threads
pub mod Loop
mod Tests
use forge_alloc.Base.{
  ℕ, zero, suc, ◌+◌, ◌-◌, Bool, Option, none, some, List, [], ◌∷◌, leb, ◌==◌, ◌&&◌, not,
  if◌then◌else◌, guard, ◌>>=◌, ◌>>◌,
}
use forge_alloc.Word.Defs.{checked_add}
use forge_alloc.Word.Align.{align_up}
use forge_alloc.Core.Layout.{NonZeroLayout}
use forge_alloc.Core.Range.{FixedRange, Block}

pub record SharedBumpArena (B : Type 0) : Type 0 where
  pub backing : B
  pub capacity : ℕ
  pub cursor : ℕ

unfoldable pub new : {B : Type 0} → FixedRange B → B → Option (SharedBumpArena B)
new r backing =
    if r.size backing == 0
    then none
    else some (record { backing = backing; capacity = r.size backing; cursor = 0 })

unfoldable pub allocated : {B : Type 0} → SharedBumpArena B → ℕ
allocated a = a.cursor

-- `saturating_sub`
unfoldable pub remaining : {B : Type 0} → SharedBumpArena B → ℕ
unfolding allocated
remaining a = a.capacity - allocated a

pub record Turn : Type 0 where
  pub seen : ℕ
  pub spurious : Bool

-- The result of one round of the loop.
pub data Outcome : Type 0 where
  issued : Block → ℕ → Outcome
  refused : Outcome
  retry : ℕ → Outcome

-- The offsets of the block and of its end, from the cursor that was read.
unfoldable pub offsets : ℕ → ℕ → ℕ → ℕ → NonZeroLayout → Option (ℕ × ℕ)
offsets w base cur capacity l = do
  raw ← checked_add w base cur
  aligned ← align_up w raw l.align
  let aligned_off = aligned - base
  end_off ← checked_add w aligned_off l.size
  guard (leb end_off capacity)
  some (aligned_off, end_off)

-- Whether the exchange from `cur` succeeds.
abbrev pub exchanges : ℕ → Turn → Bool
exchanges cur t = t.seen == cur && not t.spurious

-- One round: the block and the new cursor, a refusal, or the cursor for the next round.
unfoldable pub attempt : ℕ → ℕ → ℕ → NonZeroLayout → ℕ → Turn → Outcome
attempt w base capacity l cur t = elim (offsets w base cur capacity l) [
  | none ↦ Outcome.refused
  | some (off, end) ↦
      if exchanges cur t
      then Outcome.issued (record { address = base + off; length = l.size }) end
      else Outcome.retry t.seen
]

-- The loop over the turns that it meets; `none` while it has not ended.
unfoldable pub allocate : ℕ → ℕ → ℕ → NonZeroLayout → ℕ → List Turn → Option (Option Block)
allocate w base capacity l cur [] = none
allocate w base capacity l cur (t ∷ ts) = elim (attempt w base capacity l cur t) [
  | issued b end ↦ some (some b)
  | refused ↦ some none
  | retry seen ↦ allocate w base capacity l seen ts
]
