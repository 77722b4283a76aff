-- ===== src/Backing/Heap.antt =====
-- crates/forge-alloc/src/backing/heap.rs: `HeapBytes`, one block of the global allocator, which is an
-- argument with a state `G`; and crates/forge-alloc/src/backing/static_buf.rs: `StaticBacked`, a region
-- that is lent.
mod Tests
use forge_alloc.Base.{
  ℕ, ◌+◌, ◌^◌, ◌<◌, ◌≡◌, ◌↔◌, refl, sym, ap, subst, ◌∙◌, inl, inr, arith, Bool, true, false,
  Bool-cases, not, ◌||◌, Option, none, some, Option-cases, ◌==◌, if◌then◌else◌, ◌>>=◌,
}
use forge_alloc.Word.Defs.{is_power_of_two}
use forge_alloc.Core.Layout
use forge_alloc.Core.Layout.{NonZeroLayout, StdLayout, from_size_align, to_layout}
use forge_alloc.Core.Layout.Valid.{IsValid, from_size_align_iff, from_size_align-IsValid}
use forge_alloc.Backing.Inline.{max_align}
use forge_alloc.Core.Range.{FixedRange, IsFixed, Block, commit_default}

pub record Global (G : Type 0) : Type 0 where
  pub allocate : G → StdLayout → G × Option Block
  pub allocate_zeroed : G → StdLayout → G × Option Block
  pub deallocate : G → ℕ → StdLayout → G

pub record HeapBytes : Type 0 where
  pub ptr : ℕ
  pub block_layout : NonZeroLayout

-- The layout that is asked for, where the parameters are in order.
unfoldable pub checked_layout : ℕ → ℕ → ℕ → Option NonZeroLayout
checked_layout w size align =
    if size == 0 || align == 0 || not (is_power_of_two w align)
    then none
    else from_size_align w size align

module _ (w : ℕ) {G : Type 0} (global : Global G) where
  -- The block that a call of the global allocator serves, as a region.
  unfoldable pub take_block :
      (G → StdLayout → G × Option Block) → G → NonZeroLayout → G × Option HeapBytes
  unfolding to_layout
  take_block ask g l =
      let (g', got) = ask g (to_layout l) in
      (g', got >>= λ b. some (record { ptr = b.address; block_layout = l }))

  unfoldable pub with_align : G → ℕ → ℕ → G × Option HeapBytes
  unfolding checked_layout take_block
  with_align g size align = elim (checked_layout w size align) [
    | none ↦ (g, none)
    | some l ↦ take_block global.allocate g l
  ]

  unfoldable pub with_align_zeroed : G → ℕ → ℕ → G × Option HeapBytes
  unfolding checked_layout take_block
  with_align_zeroed g size align = elim (checked_layout w size align) [
    | none ↦ (g, none)
    | some l ↦ take_block global.allocate_zeroed g l
  ]

  unfoldable pub new : G → ℕ → G × Option HeapBytes
  unfolding with_align
  new g size = with_align g size max_align

  -- `Drop for HeapBytes`
  unfoldable pub drop : G → HeapBytes → G
  unfolding to_layout
  drop g h = global.deallocate g h.ptr (to_layout h.block_layout)

unfoldable pub capacity : HeapBytes → ℕ
capacity h = h.block_layout.size

-- `impl FixedRange for HeapBytes`
abbrev pub heap_range : FixedRange HeapBytes
heap_range = record { base = λ h. h.ptr; size = λ h. h.block_layout.size; commit = commit_default }

pub heap-IsFixed : IsFixed heap_range
heap-IsFixed = record { base-commit = λ b o n. refl; size-commit = λ b o n. refl }

pub record StaticBacked : Type 0 where
  pub ptr : ℕ
  pub len : ℕ

-- `StaticBacked::new` of a slice.
unfoldable pub static_new : Block → StaticBacked
static_new buf = record { ptr = buf.address; len = buf.length }

-- `impl FixedRange for StaticBacked`
abbrev pub static_range : FixedRange StaticBacked
static_range = record { base = λ b. b.ptr; size = λ b. b.len; commit = commit_default }

pub static-IsFixed : IsFixed static_range
static-IsFixed = record { base-commit = λ b o n. refl; size-commit = λ b o n. refl }

-- The layout is checked as `NonZeroLayout` checks it.
checked_layout-from_size_align :
    (w size align : ℕ) → checked_layout w size align ≡ from_size_align w size align
unfolding checked_layout from_size_align Layout.new
checked_layout-from_size_align w size align = elim (Bool-cases (is_power_of_two w align)) [
  | inl power ↦ ground (arith, power)
  | inr odd ↦ ground (arith, odd)
]

checked_layout-cases :
    (w : ℕ) (l : NonZeroLayout)
    → l.align < 2 ^ w
    → (IsValid w l → checked_layout w l.size l.align ≡ some l)
      × ((¬ (IsValid w l)) → checked_layout w l.size l.align ≡ none)
checked_layout-cases w l word = (
  λ v. checked_layout-from_size_align w l.size l.align ∙ (from_size_align_iff w l word).1 v,
  λ bad. elim (Option-cases (from_size_align w l.size l.align)) [
    | inl refused ↦ checked_layout-from_size_align w l.size l.align ∙ refused
    | inr (l', made) ↦
        let (valid, same) = from_size_align-IsValid w l.size l.align word made in
        absurd (bad (subst (IsValid w) same valid))
  ],
)

module _ (w : ℕ) {G : Type 0} (global : Global G) where
  asked :
      (g : G) (l : NonZeroLayout)
      → checked_layout w l.size l.align ≡ some l
      → with_align w global g l.size l.align ≡ take_block w global global.allocate g l
  unfolding with_align
  asked g l e =
      ap
        (λ (o : Option NonZeroLayout). elim o as (λ _. G × Option HeapBytes) [
          | none ↦ (g, none)
          | some x ↦ take_block w global global.allocate g x
        ])
        e

  -- For an alignment of `w` bits. Where the layout is valid, the global allocator is asked once for it; if it
  -- serves, the region is its block, with the size asked for, and its drop gives that block and that
  -- layout back, and if it refuses, the call fails. Where the layout is not valid, the call fails and asks
  -- nothing.
  pub with_align-drop :
      (g : G) (l : NonZeroLayout)
      → l.align < 2 ^ w
      → (IsValid w l
          → (b : Block) → (global.allocate g (to_layout l)).1 ≡ some b
          → (h : HeapBytes) × (with_align w global g l.size l.align
              ≡ ((global.allocate g (to_layout l)).0, some h))
            × (h.ptr ≡ b.address)
            × (capacity h ≡ l.size)
            × ((later : G)
                → drop w global later h ≡ global.deallocate later b.address (to_layout l)))
        × (IsValid w l
            → (global.allocate g (to_layout l)).1 ≡ none
            → with_align w global g l.size l.align ≡ ((global.allocate g (to_layout l)).0, none))
        × ((¬ (IsValid w l)) → with_align w global g l.size l.align ≡ (g, none))
  unfolding with_align drop capacity
  with_align-drop g l word =
      let (accepts, refuses) = checked_layout-cases w l word in
      (
        λ v b got. (
          record { ptr = b.address; block_layout = l },
          asked g l (accepts v)
              ∙ ap
                  (λ (o : Option Block). (
                    (global.allocate g (to_layout l)).0,
                    o >>= λ x. some (record { ptr = x.address; block_layout = l }),
                  ))
                  got,
          refl,
          refl,
          λ later. refl,
        ),
        λ v full.
            asked g l (accepts v)
            ∙ ap
                (λ (o : Option Block). (
                  (global.allocate g (to_layout l)).0,
                  o >>= λ x. some (record { ptr = x.address; block_layout = l }),
                ))
                full,
        λ bad.
            ap
              (λ (o : Option NonZeroLayout). elim o as (λ _. G × Option HeapBytes) [
                | none ↦ (g, none)
                | some x ↦ take_block w global global.allocate g x
              ])
              (refuses bad),
      )
