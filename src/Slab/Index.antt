-- ===== src/Slab/Index.antt =====
-- Pointers and slot indices.
use native.Mathlib.Nat.{mul-div_cancel, mul-mod_left, div-add-mod'}
use forge_alloc.Base.{
  ℕ, ◌+◌, ◌-◌, ◌*◌, ◌/◌, ◌%◌, ◌^◌, ◌≤◌, ◌<◌, ◌≡◌, ◌↔◌, ◌⊎◌, sym, ◌∙◌, bit_and, ap, arith, inl, inr,
  some, Bool-cases, ◌==◌,
}
use forge_alloc.Word.Bits.{bit_and_mask}
use forge_alloc.Core.Range.{FixedRange}
use forge_alloc.Slab.{Slab, base_ptr, slot_ptr, split_offset, slot_index}

-- The shape that the construction gives a slab: the shift, where there is one, is that of the stride.
pub record IsShaped {B M : Type 0} (s : Slab B M) : Type 0 where
  pub wide : 8 ≤ s.block_stride
  pub shift : (s.stride_shift ≡ 0) ⊎ (s.block_stride ≡ 2 ^ s.stride_shift)
  pub small : s.capacity < 2 ^ 32

module _ {B M : Type 0} (r : FixedRange B) (s : Slab B M) (h : IsShaped s) where
  -- The shift and the mask divide by the stride.
  pub split_offset-eq :
      (offset : ℕ) → split_offset r s offset ≡ (offset / s.block_stride, offset % s.block_stride)
  unfolding split_offset
  split_offset-eq offset = elim (Bool-cases (s.stride_shift == 0)) [
    | inl plain ↦ ground (arith, plain)
    | inr shifted ↦ elim h.shift [
      | inl zero_shift ↦ absurd (ground (arith, shifted, zero_shift))
      | inr power ↦
          let by_shift : offset / 2 ^ s.stride_shift ≡ offset / s.block_stride =
            ap (λ (d : ℕ). offset / d) (sym power) in
          let by_mask : bit_and offset (s.block_stride - 1) ≡ offset % s.block_stride =
            ap (λ (d : ℕ). bit_and offset (d - 1)) power
            ∙ bit_and_mask s.stride_shift offset
            ∙ ap (λ (d : ℕ). offset % d) (sym power) in
          ground (arith, shifted, by_shift, by_mask)
    ]
  ]

  -- In a slab of the constructed shape `slot_index` finds exactly the first bytes of the slots, on the shifting path and on the dividing
  -- one: it returns `i` for the address of slot `i` below the capacity, and for no other address.
  pub slot_index_iff :
      (p i : ℕ) → (slot_index r s p ≡ some i) ↔ ((i < s.capacity) × (p ≡ slot_ptr r s i))
  unfolding slot_index slot_ptr
  slot_index_iff p i = (
    λ e.
        let split : split_offset r s (p - base_ptr r s) ≡ (offset p / stride, offset p % stride) =
          split_offset-eq (offset p) in
        let parts : offset p / stride * stride + offset p % stride ≡ offset p =
          div-add-mod' (offset p) stride in
        let index : i ≡ offset p / stride = ground (arith, e, split) in
        let whole : offset p % stride ≡ 0 = ground (arith, e, split) in
        let start : base_ptr r s ≤ p = ground (arith, e, split) in
        (
          ground (arith, e, split),
          omega (arith, parts, whole, start, ap (λ (k : ℕ). k * stride) index),
        ),
    λ q.
        let here : offset p ≡ i * stride = omega (arith, q.1) in
        let split : split_offset r s (p - base_ptr r s) ≡ (i, 0) =
          split_offset-eq (offset p)
          ∙ ap (λ (o : ℕ). (o / stride, o % stride)) here
          ∙ ap (λ (k : ℕ). (k, i * stride % stride))
              (mul-div_cancel i {n = stride} (omega (arith, h.wide)))
          ∙ ap (λ (k : ℕ). (i, k)) (mul-mod_left i stride) in
        ground (arith, split, q.0, q.1, h.small),
  )
    where
      stride : ℕ
      stride = s.block_stride

      offset : ℕ → ℕ
      offset x = x - base_ptr r s
