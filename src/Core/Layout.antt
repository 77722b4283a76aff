-- ===== src/Core/Layout.antt =====
-- crates/forge-alloc-core/src/traits/non_zero_layout.rs: `NonZeroLayout`, at `w`-bit `usize`.
-- `none` is the `LayoutError` of the constructors.
pub mod Valid
pub mod Pad
mod Tests
use forge_alloc.Base.{
  ℕ, ◌+◌, ◌-◌, ◌*◌, ◌^◌, ◌≤◌, Option, none, some, ltb, ◌==◌, if◌then◌else◌, not, ◌>>=◌,
}
use forge_alloc.Word.Defs.{
  isize_max, checked_mul, wrapping_add, wrapping_sub, mask_down, is_power_of_two,
}
use forge_alloc.Word.Align.{IsAlign}

pub record NonZeroLayout : Type 0 where
  pub size : ℕ
  pub align : ℕ

-- `core::alloc::Layout`, of which the code reads the two numbers.
pub record StdLayout : Type 0 where
  pub size : ℕ
  pub align : ℕ

-- `isize::MAX - (align - 1)` does not wrap: a power of two is at most `isize::MAX + 1`.
unfoldable pub new : ℕ → ℕ → ℕ → Option NonZeroLayout
unfolding is_power_of_two
new w size align =
    if not (is_power_of_two w align)
    then none
    else if ltb (isize_max w - (align - 1)) size
    then none
    else some (record { size = size; align = align })

unfoldable pub from_size_align : ℕ → ℕ → ℕ → Option NonZeroLayout
unfolding new
from_size_align w size align =
    if size == 0 then none else if align == 0 then none else new w size align

-- `size_of::<T>()` and `align_of::<T>()` are what the model knows of a type.
pub record TypeLayout : Type 0 where
  pub size_of : ℕ
  pub align_of : ℕ

unfoldable pub for_type : ℕ → TypeLayout → Option NonZeroLayout
unfolding new
for_type w t =
    if t.size_of == 0 then none else if t.align_of == 0 then none else new w t.size_of t.align_of

-- `(size + align - 1) & !(align - 1)` in wrapping arithmetic; a zero keeps the old size.
unfoldable pub pad_to_align : ℕ → NonZeroLayout → NonZeroLayout
unfolding mask_down
pad_to_align w l =
    let padded = mask_down w (wrapping_sub w (wrapping_add w l.size l.align) 1) l.align in
    record { size = if padded == 0 then l.size else padded; align = l.align }

-- The part of `array` after the element is padded.
unfoldable pub array_of : ℕ → ℕ → ℕ → ℕ → Option NonZeroLayout
array_of w size align n = do
  total ← checked_mul w size n
  if total == 0 then none else new w total align

unfoldable pub array : ℕ → TypeLayout → ℕ → Option NonZeroLayout
array w t n = do
  elem ← for_type w t
  array_of w (pad_to_align w elem).size (pad_to_align w elem).align n

unfoldable pub to_layout : NonZeroLayout → StdLayout
to_layout l = record { size = l.size; align = l.align }

unfoldable pub try_from : ℕ → StdLayout → Option NonZeroLayout
unfolding from_size_align
try_from w l = from_size_align w l.size l.align
