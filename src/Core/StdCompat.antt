-- ===== src/Core/StdCompat.antt =====
-- crates/forge-alloc-core/src/traits/non_zero_layout.rs: `StdCompat<A>`, the adapter to the
-- `allocator_api2` trait, whose layouts may have the size 0. The inner `grow` and `shrink`, which an
-- allocator may override, are arguments.
use forge_alloc.Base.{ℕ, ◌≡◌, refl, arith, Option, none, some}
use forge_alloc.Core.Layout.{NonZeroLayout, StdLayout, to_layout, try_from}
use forge_alloc.Core.Layout.Valid.{IsValid, try_from-to_layout}
use forge_alloc.Core.Memory.{Memory}
use forge_alloc.Core.Range.{Block}
use forge_alloc.Core.Allocator.{Allocator}

-- The dangling slice of length 0, at the address of the alignment.
abbrev pub dangling_for_align : ℕ → Block
dangling_for_align align = record { address = align; length = 0 }

module _ (w : ℕ) {A : Type 0} (i : Allocator A) where
  unfoldable pub allocate : A → StdLayout → A × Option Block
  allocate a l = elim (try_from w l) [
    | none ↦ (a, some (dangling_for_align l.align))
    | some nzl ↦ i.allocate a nzl
  ]

  unfoldable pub deallocate : A → ℕ → StdLayout → A
  deallocate a ptr l = elim (try_from w l) [ none ↦ a | some nzl ↦ i.deallocate a ptr nzl ]

  -- The type of `grow` and `shrink` of an allocator.
  abbrev pub Resize : Type 0
  Resize = A → Memory → ℕ → NonZeroLayout → NonZeroLayout → A × Memory × Option Block

  unfoldable pub grow : Resize → A → Memory → ℕ → StdLayout → StdLayout → A × Memory × Option Block
  grow inner_grow a m ptr old l = elim (try_from w old) [
    | some old_nz ↦ elim (try_from w l) [
      | some new_nz ↦ inner_grow a m ptr old_nz new_nz
      | none ↦ (a, m, none)
    ]
    | none ↦ elim (try_from w l) [
      | some new_nz ↦ (let (a', got) = i.allocate a new_nz in (a', m, got))
      | none ↦ (a, m, some (dangling_for_align l.align))
    ]
  ]

  unfoldable pub shrink :
      Resize → A → Memory → ℕ → StdLayout → StdLayout → A × Memory × Option Block
  shrink inner_shrink a m ptr old l = elim (try_from w old) [
    | some old_nz ↦ elim (try_from w l) [
      | some new_nz ↦ inner_shrink a m ptr old_nz new_nz
      | none ↦ (i.deallocate a ptr old_nz, m, some (dangling_for_align l.align))
    ]
    | none ↦ elim (try_from w l) [
      | some new_nz ↦ (a, m, none)
      | none ↦ (a, m, some (dangling_for_align l.align))
    ]
  ]

  try_from_zero : (align : ℕ) → try_from w (record { size = 0; align = align }) ≡ none
  unfolding try_from
  try_from_zero align = refl

  -- The inner allocator never sees a size of 0: at that size `allocate` returns an empty slice at the
  -- address of the alignment and `deallocate` does nothing, `grow` from it is a plain allocation, and `shrink` of a valid layout
  -- to it gives the block back; none of them touches memory.
  pub zero_sized :
      (inner : Resize) (a : A) (m : Memory) (ptr align : ℕ) (l : NonZeroLayout)
      → IsValid w l
      → let zst : StdLayout = record { size = 0; align = align } in
        (allocate a zst ≡ (a, some (dangling_for_align align)))
        × (deallocate a ptr zst ≡ a)
        × (grow inner a m ptr zst (to_layout l) ≡ ((i.allocate a l).0, m, (i.allocate a l).1))
        × (shrink inner a m ptr (to_layout l) zst
            ≡ (i.deallocate a ptr l, m, some (dangling_for_align align)))
  unfolding allocate deallocate grow shrink
  zero_sized inner a m ptr align l v =
      let zero : try_from w (record { size = 0; align = align }) ≡ none = try_from_zero align in
      let whole : try_from w (to_layout l) ≡ some l = try_from-to_layout w l v in
      (
        ground (arith, zero),
        ground (arith, zero),
        ground (arith, zero, whole),
        ground (arith, whole, zero),
      )

  -- On the standard form of valid layouts the adapter does what the inner allocator does.
  pub nonzero_sized :
      (inner : Resize) (a : A) (m : Memory) (ptr : ℕ) (old l : NonZeroLayout)
      → IsValid w old
      → IsValid w l
      → (allocate a (to_layout l) ≡ i.allocate a l)
        × (deallocate a ptr (to_layout l) ≡ i.deallocate a ptr l)
        × (grow inner a m ptr (to_layout old) (to_layout l) ≡ inner a m ptr old l)
        × (shrink inner a m ptr (to_layout old) (to_layout l) ≡ inner a m ptr old l)
  unfolding allocate deallocate grow shrink
  nonzero_sized inner a m ptr old l vo v =
      let was : try_from w (to_layout old) ≡ some old = try_from-to_layout w old vo in
      let whole : try_from w (to_layout l) ≡ some l = try_from-to_layout w l v in
      (
        ground (arith, whole),
        ground (arith, whole),
        ground (arith, was, whole),
        ground (arith, was, whole),
      )
