-- ===== src/Fallback.antt =====
-- crates/forge-alloc/src/layout/fallback.rs: `WithFallback<P, S>`. The primary half is an allocator
-- over a fixed range; the secondary half is any allocator. The default `commit` of a range is not used.
pub mod Route
mod Tests
use forge_alloc.Base.{
  ℕ, ◌+◌, ◌-◌, ◌^◌, Bool, false, Option, none, some, ltb, leb, ◌||◌, if◌then◌else◌,
}
use forge_alloc.Word.Defs.{checked_add}
use forge_alloc.Core.Layout.{NonZeroLayout}
use forge_alloc.Core.Memory.{Memory}
use forge_alloc.Core.Range.{FixedRange, Block, contains}
use forge_alloc.Core.Allocator.{Allocator, allocate_zeroed}

pub record WithFallback (P S : Type 0) : Type 0 where
  pub primary : P
  pub secondary : S

-- `checked_add` of both ends; a range that wraps counts as overlapping.
unfoldable pub ranges_disjoint :
    {P S : Type 0} → ℕ → FixedRange P → FixedRange S → WithFallback P S → Bool
ranges_disjoint w rp rs f = elim (checked_add w (rp.base f.primary) (rp.size f.primary)) [
  | none ↦ false
  | some p_end ↦ elim (checked_add w (rs.base f.secondary) (rs.size f.secondary)) [
    | none ↦ false
    | some s_end ↦ leb p_end (rs.base f.secondary) || leb s_end (rp.base f.primary)
  ]
]

unfoldable pub try_new :
    {P S : Type 0} → ℕ → FixedRange P → FixedRange S → P → S → Option (WithFallback P S)
unfolding ranges_disjoint
try_new w rp rs primary secondary =
    let f : WithFallback _ _ = record { primary = primary; secondary = secondary } in
    if ranges_disjoint w rp rs f then some f else none

module _ (w : ℕ) {P S : Type 0} (rp : FixedRange P) (pa : Allocator P) (sa : Allocator S) where
  unfoldable pub deallocate : WithFallback P S → ℕ → NonZeroLayout → WithFallback P S
  deallocate f ptr l =
      if contains w rp f.primary ptr
      then record f { primary = pa.deallocate f.primary ptr l }
      else record f { secondary = sa.deallocate f.secondary ptr l }

  -- `fallback_allocate`
  unfoldable pub fallback_allocate :
      WithFallback P S → NonZeroLayout → WithFallback P S × Option Block
  fallback_allocate f l =
      let (s, got) = sa.allocate f.secondary l in (record f { secondary = s }, got)

  unfoldable pub allocate : WithFallback P S → NonZeroLayout → WithFallback P S × Option Block
  unfolding fallback_allocate
  allocate f l =
      let (p, got) = pa.allocate f.primary l in
      elim got [
        | some block ↦ (record f { primary = p }, some block)
        | none ↦ fallback_allocate (record f { primary = p }) l
      ]

  -- `usable_size`, by the sizes of the two halves.
  unfoldable pub usable_size :
      (P → ℕ → NonZeroLayout → Option ℕ)
      → (S → ℕ → NonZeroLayout → Option ℕ)
      → WithFallback P S
      → ℕ
      → NonZeroLayout
      → Option ℕ
  usable_size of_primary of_secondary f ptr l =
      if contains w rp f.primary ptr
      then of_primary f.primary ptr l
      else of_secondary f.secondary ptr l

-- The sum of the counters of the halves, which saturates at 64 bits.
unfoldable pub corruption_events : {P S : Type 0} → (P → ℕ) → (S → ℕ) → WithFallback P S → ℕ
corruption_events of_primary of_secondary f =
    let total = of_primary f.primary + of_secondary f.secondary in
    if ltb total (2 ^ 64) then total else 2 ^ 64 - 1
