-- ===== src/SizeClassed/Pick.antt =====
-- The class that a request gets.
use forge_alloc.Base.{
  ℕ, ◌-◌, ◌^◌, ◌≤◌, ◌<◌, ◌≡◌, ◌⊎◌, sym, ap, subst, ◌∙◌, inl, inr, arith, true, Option, none, some,
  Bool-cases, ltb, leb,
}
use forge_alloc.Word.Defs.{trailing_zeros}
use forge_alloc.Word.Bits.{two-pow_mono}
use forge_alloc.Word.Power.{two-pow-lt, trailing_zeros-power, Ceiling, next_power_of_two-Ceiling}
use forge_alloc.Core.Range.{FixedRange}
use forge_alloc.Core.Allocator.{Allocator}
use forge_alloc.SizeClassed.{SizeClassed, with_class_sizes, pick_class, class_at, requested}
use forge_alloc.SizeClassed.Lookup.{build_lookup}
use forge_alloc.SizeClassed.Lookup.Least.{Least, build_lookup-Least}
use forge_alloc.SizeClassed.Make.{Accepted, valid_sizes-Accepted, Accepted-Rising}

le_of_leb : (x y : ℕ) → leb x y ≡ true → x ≤ y
le_of_leb x y h = ground (arith, h)

lt_of_ltb : (x y : ℕ) → ltb x y ≡ true → x < y
lt_of_ltb x y h = ground (arith, h)

-- The size of a class is enough for a request.
abbrev pub Fits : ℕ → ℕ → ℕ → Type 0
Fits class_size size align = (size ≤ class_size) × (align ≤ class_size)

abbrev pub Short : ℕ → ℕ → ℕ → Type 0
Short class_size size align = (class_size < size) ⊎ (class_size < align)

-- What `pick_class` answers for a request, over the classes that the table can name.
pub record Picks (class_sizes : ℕ → ℕ) (classes size align : ℕ) (got : Option ℕ) : Type 0 where
  pub class :
      (i : ℕ)
      → got ≡ some i
      → (i < classes)
        × Fits (class_sizes i) size align
        × (class_sizes i < 2 ^ 32)
        × ((j : ℕ) → j < i → Short (class_sizes j) size align)
  pub no_class :
      got ≡ none → (i : ℕ) → i < classes → class_sizes i < 2 ^ 32 → Short (class_sizes i) size align

module _ (w classes : ℕ) (class_sizes : ℕ → ℕ) (a : Accepted w class_sizes classes)
    (size align : ℕ) where
  abbrev req : ℕ
  req = requested size align

  Short-req : (c : ℕ) → c < req → Short c size align
  Short-req c h = elim (Bool-cases (ltb align size)) [
    | inl wide ↦ inl (ground (arith, wide, h))
    | inr tall ↦ inr (ground (arith, tall, h))
  ]

  Fits-req : (c : ℕ) → req ≤ c → Fits c size align
  Fits-req c h = ground (arith, h)

  -- The class is too small where its bit is below the ceiling of the request.
  below_short :
      (k i : ℕ)
      → Ceiling req k
      → i < classes
      → trailing_zeros w (class_sizes i) < k
      → class_sizes i < req
  below_short k i c lt low = elim (Bool-cases (ltb (class_sizes i) req)) [
    | inl less ↦ ground (arith, less)
    | inr enough ↦
        let fits : req ≤ class_sizes i = ground (arith, enough) in
        absurd (
          omega (
            arith,
            low,
            c.least (trailing_zeros w (class_sizes i))
                (subst (λ (t : ℕ). req ≤ t) (a.power i lt) fits),
          ))
  ]

  low_bit : (i : ℕ) → i < classes → class_sizes i < 2 ^ 32 → trailing_zeros w (class_sizes i) < 32
  low_bit i lt small = elim (Bool-cases (ltb (trailing_zeros w (class_sizes i)) 32)) [
    | inl less ↦ ground (arith, less)
    | inr high ↦ absurd (
        omega (
          arith,
          small,
          a.power i lt,
          two-pow_mono 32 (trailing_zeros w (class_sizes i)) (ground (arith, high)),
        ))
  ]

  module _ (lookup : ℕ → ℕ) (least : (k : ℕ) → k < 32 → Least w class_sizes classes k (lookup k))
      (few : classes ≤ 255) where
    table-Picks :
        (k : ℕ)
        → Ceiling req k
        → k < 32
        → Least w class_sizes classes k (lookup k)
        → Picks class_sizes classes size align (class_at lookup k)
    unfolding class_at
    table-Picks k c low (inl (free, below)) = record {
      class = λ i e. absurd (ground (arith, e, low, free));
      no_class = λ e i lt small.
          Short-req (class_sizes i) (below_short k i c lt (below i lt (low_bit i lt small)));
    }
    table-Picks k c low (inr (used, above, bit, before)) = record {
      class = λ i e.
          let same : lookup k ≡ i = ground (arith, e, low) in
          subst
            (λ (x : ℕ).
              (x < classes)
              × Fits (class_sizes x) size align
              × (class_sizes x < 2 ^ 32)
              × ((j : ℕ) → j < x → Short (class_sizes j) size align))
            same
            (
              used,
              Fits-req (class_sizes (lookup k)) (
                  omega (
                    arith,
                    c.above,
                    two-pow_mono k (trailing_zeros w (class_sizes (lookup k))) above,
                    a.power (lookup k) used,
                  )),
              omega (
                arith,
                a.power (lookup k) used,
                two-pow-lt (trailing_zeros w (class_sizes (lookup k))) 32 bit,
              ),
              λ j lt.
                  Short-req (class_sizes j)
                    (below_short k j c (omega (arith, lt, used)) (before j lt)),
            );
      no_class = λ e i lt small. absurd (ground (arith, e, low, used, few));
    }

    class_at-Picks :
        (k : ℕ) → Ceiling req k → Picks class_sizes classes size align (class_at lookup k)
    unfolding class_at
    class_at-Picks k c = elim (Bool-cases (leb 32 k)) [
      | inl high ↦ record {
        class = λ i e. absurd (ground (arith, e, high));
        no_class = λ e i lt small.
            Short-req (class_sizes i)
              (below_short k i c lt (omega (arith, low_bit i lt small, le_of_leb 32 k high)));
      }
      | inr low ↦ table-Picks k c (ground (arith, low)) (least k (ground (arith, low)))
    ]

    pick_class-Picks : 1 ≤ w → Picks class_sizes classes size align (pick_class w lookup size align)
    unfolding pick_class
    pick_class-Picks pos = elim (Bool-cases (ltb (2 ^ (w - 1)) req)) [
      | inl large ↦ record {
        class = λ i e. absurd (ground (arith, e, large));
        no_class = λ e i lt small. Short-req (class_sizes i) (
            omega (
              arith,
              lt_of_ltb (2 ^ (w - 1)) req large,
              a.power i lt,
              two-pow_mono (trailing_zeros w (class_sizes i)) (w - 1) (omega (arith, a.low i lt)),
            ));
      }
      | inr word ↦
          let (k, e, lt, c) = next_power_of_two-Ceiling w req pos (ground (arith, word)) in
          subst (Picks class_sizes classes size align)
            (sym (
              ground (arith, word)
              ∙ ap (class_at lookup) (ap (trailing_zeros w) e ∙ trailing_zeros-power w k lt)))
            (class_at-Picks k c)
    ]

module _ (w classes : ℕ) {B : Type 0} (r : FixedRange B) (al : Allocator B) where
  -- What a construction that succeeds has checked and built, in short.
  pub record Made (class_sizes : ℕ → ℕ) (s : SizeClassed B) : Type 0 where
    pub accepted : Accepted w class_sizes classes
    pub few : classes ≤ 255
    pub sizes : s.class_sizes ≡ class_sizes
    pub table : s.class_lookup ≡ build_lookup w class_sizes classes

  pub with_class_sizes-Made :
      (backing b : B) (class_sizes : ℕ → ℕ) (slots : ℕ) (s : SizeClassed B)
      → ((i : ℕ) → i < classes → class_sizes i < 2 ^ w)
      → with_class_sizes w r al classes backing class_sizes slots ≡ (b, some s)
      → Made class_sizes s
  unfolding with_class_sizes
  with_class_sizes-Made backing b class_sizes slots s words e = record {
    accepted = valid_sizes-Accepted w class_sizes classes words (ground (arith, e));
    few = ground (arith, e);
    sizes = ground (arith, e);
    table = ground (arith, e);
  }

  -- For a constructor over machine words of at least one bit, and class sizes that are words: the class
  -- that `pick_class` finds in what it builds is the first one, of those below 2 ^ 32 bytes, whose
  -- size is at least the size and at least the alignment of the request, and it finds none
  -- exactly where every such class is too small for one of the two.
  pub with_class_sizes-Picks :
      (backing b : B) (class_sizes : ℕ → ℕ) (slots : ℕ) (s : SizeClassed B) (size align : ℕ)
      → 1 ≤ w
      → ((i : ℕ) → i < classes → class_sizes i < 2 ^ w)
      → with_class_sizes w r al classes backing class_sizes slots ≡ (b, some s)
      → Picks class_sizes classes size align (pick_class w s.class_lookup size align)
  with_class_sizes-Picks backing b class_sizes slots s size align pos words e =
      let made : Made class_sizes s = with_class_sizes-Made backing b class_sizes slots s words e in
      subst (λ (t : ℕ → ℕ). Picks class_sizes classes size align (pick_class w t size align))
        (sym made.table)
        (pick_class-Picks w classes class_sizes made.accepted size align
          (build_lookup w class_sizes classes)
          (build_lookup-Least w class_sizes classes
            (Accepted-Rising w class_sizes classes made.few made.accepted))
          made.few pos)
