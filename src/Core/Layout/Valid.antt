-- ===== src/Core/Layout/Valid.antt =====
-- The invariant of `NonZeroLayout`, which its constructors accept exactly.
use forge_alloc.Base.{
  ℕ, ◌+◌, ◌-◌, ◌^◌, ◌≤◌, ◌<◌, ◌≡◌, ◌↔◌, sym, subst, arith, true, some, Bool-cases, inl, inr,
}
use forge_alloc.Word.Defs.{isize_max, is_power_of_two, trailing_zeros}
use forge_alloc.Word.Align.{IsAlign, IsAlign-pos}
use forge_alloc.Word.Power.{is_power_of_two_sound, is_power_of_two_complete}
use forge_alloc.Core.Layout.{
  NonZeroLayout, new, from_size_align, to_layout, try_from, TypeLayout, for_type,
}

pub record IsValid (w : ℕ) (l : NonZeroLayout) : Type 0 where
  pub nonzero : 1 ≤ l.size
  pub power : IsAlign w l.align
  pub bounded : l.size + (l.align - 1) ≤ isize_max w

pub is_power_of_two-IsAlign : (w a : ℕ) → a < 2 ^ w → is_power_of_two w a ≡ true → IsAlign w a
is_power_of_two-IsAlign w a h e =
    let p : (trailing_zeros w a < w) × (a ≡ 2 ^ trailing_zeros w a) =
      is_power_of_two_sound w a h e in
    record { exponent = trailing_zeros w a; fits = p.0; power = p.1 }

pub IsAlign-is_power_of_two : {w a : ℕ} → IsAlign w a → is_power_of_two w a ≡ true
IsAlign-is_power_of_two {w} a = rw a.power (is_power_of_two_complete w a.exponent a.fits)

-- What `new` accepts of a nonzero size is valid.
pub new-IsValid :
    (w size align : ℕ) {l : NonZeroLayout}
    → align < 2 ^ w
    → 1 ≤ size
    → new w size align ≡ some l
    → IsValid w l × (l ≡ record { size = size; align = align })
unfolding new
new-IsValid w size align {l} ha hs e = elim (Bool-cases (is_power_of_two w align)) [
  | inl p ↦
      let a : IsAlign w align = is_power_of_two-IsAlign w align ha p in
      let same : l ≡ record { size = size; align = align } = ground (arith, e, p) in
      let small : size + (align - 1) ≤ isize_max w = ground (arith, e, p) in
      let v : IsValid w (record { size = size; align = align }) = record {
        nonzero = hs;
        power = a;
        bounded = small;
      } in
      (subst (IsValid w) (sym same) v, same)
  | inr p ↦ absurd (ground (arith, e, p))
]

pub for_type-IsValid :
    (w : ℕ) (t : TypeLayout) {l : NonZeroLayout}
    → t.align_of < 2 ^ w
    → for_type w t ≡ some l
    → IsValid w l × (l ≡ record { size = t.size_of; align = t.align_of })
unfolding for_type
for_type-IsValid w t h e =
    new-IsValid w t.size_of t.align_of h (ground (arith, e)) (ground (arith, e))

-- and it refuses nothing that is valid.
pub IsValid-new : (w : ℕ) (l : NonZeroLayout) → IsValid w l → new w l.size l.align ≡ some l
unfolding new
IsValid-new w l v = ground (arith, IsAlign-is_power_of_two v.power)

-- For an alignment of `w` bits, `from_size_align` returns a layout exactly when the layout is valid:
-- a nonzero size, a power of two, and a size that stays within `isize::MAX` when it is rounded up to
-- the alignment.
pub from_size_align_iff :
    (w : ℕ) (l : NonZeroLayout)
    → l.align < 2 ^ w
    → (from_size_align w l.size l.align ≡ some l) ↔ IsValid w l
unfolding from_size_align
from_size_align_iff w l h = (
  λ e. (new-IsValid w l.size l.align h (ground (arith, e)) (ground (arith, e))).0,
  λ v. ground (arith, IsValid-new w l v, v.nonzero, IsAlign-pos v.power),
)

pub from_size_align-IsValid :
    (w size align : ℕ) {l : NonZeroLayout}
    → align < 2 ^ w
    → from_size_align w size align ≡ some l
    → IsValid w l × (l ≡ record { size = size; align = align })
unfolding from_size_align
from_size_align-IsValid w size align h e =
    new-IsValid w size align h (ground (arith, e)) (ground (arith, e))

-- A valid layout that was converted to a standard one converts back to itself.
pub try_from-to_layout :
    (w : ℕ) (l : NonZeroLayout) → IsValid w l → try_from w (to_layout l) ≡ some l
unfolding try_from to_layout from_size_align
try_from-to_layout w l v = ground (arith, IsValid-new w l v, v.nonzero, IsAlign-pos v.power)
