-- ===== src/Core/Range.antt =====
-- crates/forge-alloc-core/src/traits/fixed_range.rs: the interface `FixedRange`, and the laws that
-- its contract states. A block is the `NonNull<[u8]>` that an allocation returns.
use forge_alloc.Word.Wrap.{wrapping_sub_le, wrapping_sub_lt}
use forge_alloc.Base.{
  ℕ, ◌↔◌, inl, inr, Bool-cases, ◌+◌, ◌-◌, ◌^◌, ◌<◌, ◌≤◌, ◌≡◌, Bool, true, Option, some, ltb, arith,
}
use forge_alloc.Word.Defs.{wrapping_sub}

pub record Block : Type 0 where
  pub address : ℕ
  pub length : ℕ

-- `commit` may change the backing, and fails with `none`.
pub record FixedRange (B : Type 0) : Type 0 where
  pub base : B → ℕ
  pub size : B → ℕ
  pub commit : B → ℕ → ℕ → B × Option (Unit {0})

-- `base` and `size` never change.
pub record IsFixed {B : Type 0} (r : FixedRange B) : Type 0 where
  pub base-commit : (b : B) (offset len : ℕ) → r.base (r.commit b offset len).0 ≡ r.base b
  pub size-commit : (b : B) (offset len : ℕ) → r.size (r.commit b offset len).0 ≡ r.size b

-- The default `commit`.
abbrev pub commit_default : {B : Type 0} → B → ℕ → ℕ → B × Option (Unit {0})
commit_default b offset len = (b, some tt)

-- The default `contains`, by a wrapping subtraction.
unfoldable pub contains : {B : Type 0} → ℕ → FixedRange B → B → ℕ → Bool
contains w r b p = ltb (wrapping_sub w p (r.base b)) (r.size b)

-- For a region that ends within the `w`-bit address space, `contains` holds of exactly the addresses
-- from its first byte up to its end.
pub contains_iff :
    {B : Type 0} (w : ℕ) (r : FixedRange B) (b : B) (p : ℕ)
    → p < 2 ^ w
    → r.base b + r.size b ≤ 2 ^ w
    → (contains w r b p ≡ true) ↔ ((r.base b ≤ p) × (p < r.base b + r.size b))
unfolding contains
contains_iff w r b p top inside = elim (Bool-cases (ltb p (r.base b))) [
  | inl below ↦
      let lt : p < r.base b = ground (arith, below) in
      let wrapped : wrapping_sub w p (r.base b) ≡ p + 2 ^ w - r.base b =
        wrapping_sub_lt w p (r.base b) lt (omega arith) in
      (λ e. absurd (ground (arith, e, wrapped)), λ q. absurd (omega (arith, q.0)))
  | inr from ↦
      let le : r.base b ≤ p = ground (arith, from) in
      let plain : wrapping_sub w p (r.base b) ≡ p - r.base b =
        wrapping_sub_le w p (r.base b) le top in
      (λ e. (le, ground (arith, e, plain)), λ q. ground (arith, q.1, plain))
]
