-- ===== src/Slab/Release.antt =====
-- What the drop of a slab gives back.
use forge_alloc.Base.{ℕ, ◌≡◌, ◌∙◌, ap, arith, inl, inr, some, Option-cases}
use forge_alloc.Word.Defs.{checked_mul}
use forge_alloc.Core.Layout.{NonZeroLayout, TypeLayout, from_size_align}
use forge_alloc.Core.Range.{FixedRange, Block}
use forge_alloc.Core.Allocator.{Allocator}
use forge_alloc.Slab.{Slab, slot_align, stride_of, build, with_protection, base_ptr, drop}

module _ (w : ℕ) {B M : Type 0} (r : FixedRange B) (al : Allocator B) (t : TypeLayout) where
  -- The slab holds the block `got` that the backing gave for the layout `l`.
  pub record Owns (backing : B) (s : Slab B M) : Type 0 where
    pub l : NonZeroLayout
    pub got : Block
    pub supplied : (al.allocate backing l).1 ≡ some got
    pub returned : drop r al s ≡ al.deallocate (al.allocate backing l).0 got.address l

  build-Owns :
      (capacity : ℕ) (backing : B) (mac : M) (stride : ℕ) (l : NonZeroLayout) (block : Block)
      {s : Slab B M}
      → build w r al t capacity backing mac stride l block ≡ some s
      → (s.backing ≡ backing) × (base_ptr r s ≡ block.address) × (s.backing_layout ≡ l)
  unfolding build base_ptr
  build-Owns capacity backing mac stride l block {s} e =
      (ground (arith, e), ground (arith, e), ground (arith, e))

  -- The drop of a slab as `with_protection` built it gives back to the backing the block that the
  -- construction took, at its address and with the layout that it was asked for.
  pub with_protection-Owns :
      (capacity : ℕ) (backing : B) (mac : M) {s : Slab B M}
      → with_protection w r al t capacity backing mac ≡ some s
      → Owns backing s
  unfolding with_protection drop
  with_protection-Owns capacity backing mac {s} e = elim (Option-cases (stride_of w t)) [
    | inl no_stride ↦ absurd (ground (arith, e, no_stride))
    | inr (stride, es) ↦ elim (Option-cases (checked_mul w stride capacity)) [
      | inl over ↦ absurd (ground (arith, e, es, over))
      | inr (total, et) ↦ elim (Option-cases (from_size_align w total (slot_align t))) [
        | inl no_layout ↦ absurd (ground (arith, e, es, et, no_layout))
        | inr (l, el) ↦ elim (Option-cases (al.allocate backing l).1) [
          | inl no_block ↦ absurd (ground (arith, e, es, et, el, no_block))
          | inr (got, eb) ↦
              let (same, at, layout) =
                build-Owns capacity (al.allocate backing l).0 mac stride l got
                  (ground (arith, e, es, et, el, eb)) in
              record {
                l = l;
                got = got;
                supplied = eb;
                returned =
                    ap (λ (b : B). al.deallocate b (base_ptr r s) s.backing_layout) same
                    ∙ ap (λ (x : ℕ). al.deallocate (al.allocate backing l).0 x s.backing_layout) at
                    ∙ ap
                        (λ (x : NonZeroLayout).
                          al.deallocate (al.allocate backing l).0 got.address x)
                        layout;
              }
        ]
      ]
    ]
  ]
