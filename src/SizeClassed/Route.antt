-- ===== src/SizeClassed/Route.antt =====
-- Where a pointer goes back to.
use forge_alloc.Base.{
  ℕ, zero, suc, ◌+◌, ◌*◌, ◌^◌, ◌≤◌, ◌<◌, ◌≡◌, ◌⊎◌, ◌↔◌, refl, sym, ap, subst, inl, inr, arith, Bool,
  true, false, none, some, Bool-cases, ltb, ◌==◌,
}
use forge_alloc.Word.Defs.{wrapping_sub}
use forge_alloc.Word.Wrap.{wrapping_add_lt}
use forge_alloc.Core.Range.{FixedRange, contains, contains_iff, commit_default}
use forge_alloc.Core.Allocator.{Allocator}
use forge_alloc.SizeClassed.Untyped.{slot_ptr}
use forge_alloc.SizeClassed.{SizeClassed, find, in_region, route_dealloc}

-- `find` returns the first class that passes, or none where none does.
find-first :
    (test : ℕ → Bool) (n i k : ℕ)
    → i ≤ k
    → k < i + n
    → test k ≡ true
    → ((j : ℕ) → i ≤ j → j < k → test j ≡ false)
    → find test n i ≡ some k
unfolding find
find-first test zero i k ge lt yes_k before = absurd (omega (arith, ge, lt))
find-first test (suc n) i k ge lt yes_k before = elim (Bool-cases (i == k)) [
  | inl here ↦ let same : i ≡ k = ground (arith, here) in ground (arith, same, yes_k, ap test same)
  | inr later ↦ ground (
    arith,
    before i (omega arith) (ground (arith, later, ge)),
    find-first test n (suc i) k (ground (arith, later, ge)) (omega (arith, lt)) yes_k
        (λ j from to. before j (omega (arith, from)) to),
  )
]

find-none :
    (test : ℕ → Bool) (n i : ℕ)
    → ((j : ℕ) → i ≤ j → j < i + n → test j ≡ false)
    → find test n i ≡ none
unfolding find
find-none test zero i all = refl
find-none test (suc n) i all = ground (
  arith,
  all i (omega arith) (omega arith),
  find-none test n (suc i) (λ j from to. all j (omega (arith, from)) (omega (arith, to))),
)

slot_below : (j n stride : ℕ) → j < n → 1 ≤ stride → j * stride < n * stride
slot_below j n stride lt pos = grind arith

module _ (w classes : ℕ) {B : Type 0} (r : FixedRange B) (al : Allocator B) where
  -- The first byte of the region of a class.
  abbrev pub start : SizeClassed B → ℕ → ℕ
  start s i = r.base s.backing + (s.slabs i).base_offset

  -- The regions end below the top of the address space, hold their slots, and no two share a byte.
  pub record Placed (s : SizeClassed B) : Type 0 where
    pub inside : (i : ℕ) → i < classes → start s i + s.region_sizes i < 2 ^ w
    pub size :
        (i : ℕ) → i < classes → s.region_sizes i ≡ (s.slabs i).capacity * (s.slabs i).block_stride
    pub apart :
        (i j : ℕ)
        → i < j
        → j < classes
        → (start s i + s.region_sizes i ≤ start s j) ⊎ (start s j + s.region_sizes j ≤ start s i)

  in_region_iff :
      (s : SizeClassed B) (p i : ℕ)
      → p < 2 ^ w
      → start s i + s.region_sizes i < 2 ^ w
      → (in_region w classes r al s p i ≡ true)
        ↔ ((start s i ≤ p) × (p < start s i + s.region_sizes i))
  unfolding in_region contains
  in_region_iff s p i top inside =
      subst
        (λ (t : ℕ).
          (ltb (wrapping_sub w p t) (s.region_sizes i) ≡ true)
          ↔ ((start s i ≤ p) × (p < start s i + s.region_sizes i)))
        (sym (wrapping_add_lt w (r.base s.backing) (s.slabs i).base_offset (omega (arith, inside))))
        (contains_iff w (region s i) tt p top (omega (arith, inside)))
    where
      region : SizeClassed B → ℕ → FixedRange (Unit {0})
      region s i = record {
        base = λ u. start s i;
        size = λ u. s.region_sizes i;
        commit = commit_default;
      }

  -- An address in the region of a class is routed to that class.
  route-region :
      (s : SizeClassed B) (p i : ℕ)
      → Placed s
      → i < classes
      → start s i ≤ p
      → p < start s i + s.region_sizes i
      → route_dealloc w classes r al s p ≡ some i
  unfolding route_dealloc
  route-region s p i h lt from to =
      let top : p < 2 ^ w = omega (arith, to, h.inside i lt) in
      find-first (in_region w classes r al s p) classes 0 i (omega arith) (omega (arith, lt))
        ((in_region_iff s p i top (h.inside i lt)).1 (from, to))
        (λ j zero_le before. elim (Bool-cases (in_region w classes r al s p j)) [
          | inr outside ↦ outside
          | inl within ↦
              let (from', to') =
                (in_region_iff s p j top (h.inside j (omega (arith, before, lt)))).0 within in
              elim (h.apart j i before lt) [
                | inl below ↦ absurd (omega (arith, below, to', from))
                | inr above ↦ absurd (omega (arith, above, to, from'))
              ]
        ])

  -- In an allocator whose class regions end below the top of the address space and share no byte: every
  -- slot, of at least one byte, of a class is routed back to that class, and an address outside of all
  -- regions to the backing.
  pub route_dealloc-slot :
      (s : SizeClassed B)
      → Placed s
      → ((i j : ℕ)
          → i < classes
          → j < (s.slabs i).capacity
          → 1 ≤ (s.slabs i).block_stride
          → route_dealloc w classes r al s (slot_ptr (s.slabs i) (r.base s.backing) j) ≡ some i)
        × ((p : ℕ)
            → p < 2 ^ w
            → ((i : ℕ) → i < classes → (p < start s i) ⊎ (start s i + s.region_sizes i ≤ p))
            → route_dealloc w classes r al s p ≡ none)
  unfolding route_dealloc slot_ptr
  route_dealloc-slot s h = (
    λ i j lt slot wide.
        route-region s (start s i + j * (s.slabs i).block_stride) i h lt (omega arith) (
          omega (
            arith,
            h.size i lt,
            slot_below j (s.slabs i).capacity (s.slabs i).block_stride slot wide,
          )),
    λ p top out. find-none (in_region w classes r al s p) classes 0 (λ i zero_le lt.
        elim (Bool-cases (in_region w classes r al s p i)) [
          | inr outside ↦ outside
          | inl within ↦
              let low : i < classes = omega (arith, lt) in
              let (from, to) = (in_region_iff s p i top (h.inside i low)).0 within in
              elim (out i low) [
                | inl below ↦ absurd (omega (arith, below, from))
                | inr above ↦ absurd (omega (arith, above, to))
              ]
        ]),
  )
