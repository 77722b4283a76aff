-- ===== src/SizeClassed.antt =====
-- crates/forge-alloc/src/layout/size_classed.rs: `SizeClassed<B, CLASSES>`. The arrays of the struct are
-- functions of the class, of which the code reads the first `classes` values; the links of each
-- class stand for the memory of its region. The release build: the `debug_assert!`s are left out.
pub mod Untyped
pub mod Lookup
pub mod Make
pub mod Pick
pub mod Route
pub mod Reuse
pub mod Undo
mod Tests
use forge_alloc.Base.{
  ℕ, zero, suc, ◌+◌, ◌-◌, ◌*◌, ◌%◌, ◌^◌, ◌≤◌, Bool, true, false, not, Option, none, some, ltb, leb,
  ◌==◌, ◌&&◌, ◌||◌, if◌then◌else◌, ◌>>=◌,
}
use forge_alloc.Word.Defs.{
  checked_add, checked_mul, wrapping_add, wrapping_sub, saturating_add, is_power_of_two,
  trailing_zeros, next_power_of_two,
}
use forge_alloc.Core.Layout.{NonZeroLayout, from_size_align}
use forge_alloc.Core.Range.{FixedRange, Block}
use forge_alloc.Core.Allocator.{Allocator}
use forge_alloc.SizeClassed.Untyped.{UntypedSlab, Nexts, allocate_slot, free_slot}
use forge_alloc.SizeClassed.Untyped
use forge_alloc.SizeClassed.Lookup.{build_lookup, class_lookup_none}

pub record SizeClassed (B : Type 0) : Type 0 where
  pub backing : B
  pub class_sizes : ℕ → ℕ
  pub slabs : ℕ → UntypedSlab
  pub class_layouts : ℕ → NonZeroLayout
  pub class_lookup : ℕ → ℕ
  pub region_sizes : ℕ → ℕ

-- What `with_class_sizes` has built after `built` rounds.
pub record Built (B : Type 0) : Type 0 where
  pub backing : B
  pub slabs : ℕ → UntypedSlab
  pub class_layouts : ℕ → NonZeroLayout
  pub built : ℕ

-- A write of one value of an array.
abbrev pub set {ℓ} : {A : Type ℓ} → (ℕ → A) → ℕ → A → ℕ → A
set f i v j = if j == i then v else f j

-- The size and the alignment of the `FreeLink` of four bytes.
abbrev pub min_size : ℕ
min_size = 4

-- The checks of the `n` class sizes from class `i` on, of which the one before is `last`.
unfoldable pub valid_sizes : ℕ → (ℕ → ℕ) → ℕ → ℕ → ℕ → Bool
valid_sizes w class_sizes zero i last = true
valid_sizes w class_sizes (suc n) i last =
    not (
      ltb (class_sizes i) min_size
      || not (is_power_of_two w (class_sizes i))
      || leb (class_sizes i) last)
    && valid_sizes w class_sizes n (suc i) (class_sizes i)

-- The layout of the region of a class.
unfoldable pub region_layout : ℕ → ℕ → ℕ → Option NonZeroLayout
region_layout w stride slots_per_class = do
  total ← checked_mul w stride slots_per_class
  from_size_align w total stride

module _ (w : ℕ) {B : Type 0} (r : FixedRange B) (al : Allocator B) where
  -- One round of the construction; `false` is `break`.
  unfoldable pub build_class : (ℕ → ℕ) → ℕ → Built B → ℕ → Built B × Bool
  build_class class_sizes slots st i = elim (region_layout w (class_sizes i) slots) [
    | none ↦ (st, false)
    | some l ↦
        let (b, got) = al.allocate st.backing l in
        elim got [
          | none ↦ (record st { backing = b }, false)
          | some region ↦ (
            record {
              backing = b;
              slabs =
                  set st.slabs i
                    (Untyped.new (wrapping_sub w region.address (r.base b)) (class_sizes i) slots);
              class_layouts = set st.class_layouts i l;
              built = st.built + 1;
            },
            true,
          )
        ]
  ]

  -- The `n` rounds from class `i` on.
  unfoldable pub build_classes : (ℕ → ℕ) → ℕ → ℕ → ℕ → Built B → Built B
  unfolding build_class
  build_classes class_sizes slots zero i st = st
  build_classes class_sizes slots (suc n) i st =
      let (st', go) = build_class class_sizes slots st i in
      elim go [ false ↦ st' | true ↦ build_classes class_sizes slots n (suc i) st' ]

  -- The regions of the `n` first classes go back, the last one first.
  unfoldable pub undo : (ℕ → UntypedSlab) → (ℕ → NonZeroLayout) → ℕ → B → B
  undo slabs class_layouts zero b = b
  undo slabs class_layouts (suc n) b =
      undo slabs class_layouts n
        (al.deallocate b (Untyped.base_ptr (slabs n) (r.base b)) (class_layouts n))

  -- What the arrays hold before they are written is never read.
  unfoldable pub no_classes : B → Built B
  no_classes backing = record {
    backing = backing;
    slabs = λ i. Untyped.new 0 0 0;
    class_layouts = λ i. record { size = 0; align = 0 };
    built = 0;
  }

  -- The backing beside the result: an error drops it.
  unfoldable pub with_class_sizes : ℕ → B → (ℕ → ℕ) → ℕ → B × Option (SizeClassed B)
  unfolding build_classes valid_sizes no_classes
  with_class_sizes classes backing class_sizes slots =
      if classes == 0 || slots == 0
      then (backing, none)
      else if not (valid_sizes w class_sizes classes 0 0)
      then (backing, none)
      else (let st = build_classes class_sizes slots classes 0 (no_classes backing) in
          if not (st.built == classes)
          then (undo st.slabs st.class_layouts st.built st.backing, none)
          else if ltb class_lookup_none classes
          then (undo st.slabs st.class_layouts classes st.backing, none)
          else (
            st.backing,
            some (record {
              backing = st.backing;
              class_sizes = class_sizes;
              slabs = st.slabs;
              class_layouts = st.class_layouts;
              class_lookup = build_lookup w class_sizes classes;
              region_sizes = λ i. (st.slabs i).capacity * (st.slabs i).block_stride;
            }),
          ))

-- The entry of the table for a bit.
unfoldable pub class_at : (ℕ → ℕ) → ℕ → Option ℕ
class_at class_lookup bit =
    if leb 32 bit
    then none
    else if class_lookup bit == class_lookup_none
    then none
    else some (class_lookup bit)

-- The larger of the size and the alignment.
abbrev pub requested : ℕ → ℕ → ℕ
requested size align = if ltb align size then size else align

-- The class for a request, by the table.
unfoldable pub pick_class : ℕ → (ℕ → ℕ) → ℕ → ℕ → Option ℕ
unfolding class_at
pick_class w class_lookup size align =
    let req = requested size align in
    if ltb (2 ^ (w - 1)) req
    then none
    else class_at class_lookup (trailing_zeros w (next_power_of_two w req))

-- The first of `n` classes from `i` on that passes a test.
unfoldable pub find : (ℕ → Bool) → ℕ → ℕ → Option ℕ
find test zero i = none
find test (suc n) i = elim (test i) [ true ↦ some i | false ↦ find test n (suc i) ]

module _ (w classes : ℕ) {B : Type 0} (r : FixedRange B) (al : Allocator B) where
  -- Whether `p` is in the region of class `i`.
  unfoldable pub in_region : SizeClassed B → ℕ → ℕ → Bool
  in_region s p i =
      ltb (wrapping_sub w p (wrapping_add w (r.base s.backing) (s.slabs i).base_offset))
        (s.region_sizes i)

  unfoldable pub route_dealloc : SizeClassed B → ℕ → Option ℕ
  unfolding in_region find
  route_dealloc s p = find (in_region s p) classes 0

  unfoldable pub deallocate :
      SizeClassed B → (ℕ → Nexts) → ℕ → NonZeroLayout → SizeClassed B × (ℕ → Nexts)
  deallocate s m p l = elim (route_dealloc s p) [
    | some i ↦
        let (u, n) = free_slot w (s.slabs i) (m i) (r.base s.backing) p in
        (record s { slabs = set s.slabs i u }, set m i n)
    | none ↦ (record s { backing = al.deallocate s.backing p l }, m)
  ]

  unfoldable pub from_backing : SizeClassed B → NonZeroLayout → SizeClassed B × Option Block
  from_backing s l = let (b, got) = al.allocate s.backing l in (record s { backing = b }, got)

  unfoldable pub allocate :
      SizeClassed B → (ℕ → Nexts) → NonZeroLayout → SizeClassed B × Option Block
  unfolding from_backing
  allocate s m l = elim (pick_class w s.class_lookup l.size l.align) [
    | none ↦ from_backing s l
    | some i ↦
        let (u, got) = allocate_slot w (s.slabs i) (m i) (r.base s.backing) in
        elim got [
          | some p ↦ (
            record s { slabs = set s.slabs i u },
            some (record { address = p; length = s.class_sizes i }),
          )
          | none ↦ from_backing (record s { slabs = set s.slabs i u }) l
        ]
  ]

  -- `of_backing` is the `usable_size` of the backing.
  unfoldable pub usable_size :
      (B → ℕ → NonZeroLayout → Option ℕ) → SizeClassed B → ℕ → NonZeroLayout → Option ℕ
  usable_size of_backing s p l = elim (route_dealloc s p) [
    | some i ↦ some (s.class_sizes i)
    | none ↦ of_backing s.backing p l
  ]

  -- The sum over the first `n` classes.
  unfoldable pub capacity_sum : SizeClassed B → ℕ → Option ℕ
  capacity_sum s zero = some 0
  capacity_sum s (suc n) = do
    total ← capacity_sum s n
    checked_add w total ((s.slabs n).capacity * (s.slabs n).block_stride)

  unfoldable pub capacity_bytes : SizeClassed B → Option ℕ
  unfolding capacity_sum
  capacity_bytes s = capacity_sum s classes

  -- The counters of the first `n` classes, as a sum that saturates at 64 bits.
  unfoldable pub corruption_sum : SizeClassed B → ℕ → ℕ
  corruption_sum s zero = 0
  corruption_sum s (suc n) = saturating_add 64 (corruption_sum s n) ((s.slabs n).corruption_events)

  unfoldable pub corruption_events : (B → ℕ) → SizeClassed B → ℕ
  unfolding corruption_sum
  corruption_events of_backing s =
      saturating_add 64 (corruption_sum s classes) (of_backing s.backing)

  -- The rounds of the drop from class `i` on.
  unfoldable pub drop_classes : ℕ → ℕ → SizeClassed B → SizeClassed B
  drop_classes zero i s = s
  drop_classes (suc n) i s = drop_classes n (suc i) (record s {
    backing =
        al.deallocate s.backing (Untyped.base_ptr (s.slabs i) (r.base s.backing))
          (s.class_layouts i);
  })

  unfoldable pub drop : SizeClassed B → SizeClassed B
  unfolding drop_classes
  drop s = drop_classes classes 0 s
