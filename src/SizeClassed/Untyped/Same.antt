-- ===== src/SizeClassed/Untyped/Same.antt =====
-- An untyped slab does what the slab of slab.rs does without protection of its links.
use forge_alloc.Base.{
  ℕ, ◌+◌, ◌-◌, ◌%◌, ◌^◌, ◌≡◌, sym, ap, arith, Option, none, some, ◌∙◌, ◌/◌, fun_ext,
}
use forge_alloc.Core.Layout.{NonZeroLayout}
use forge_alloc.Core.Range.{FixedRange, Block}
use forge_alloc.Core.Freelist.{NoProtection, unprotected}
use forge_alloc.Slab
use forge_alloc.Slab.{Slab, Links, FreeLink, write_link}
use forge_alloc.Slab.Index.{IsShaped, split_offset-eq}
use forge_alloc.SizeClassed.Untyped.{
  UntypedSlab, Nexts, slot_index, allocate_slot, free_slot, write_next,
}

-- The links of four bytes as links without a tag.
abbrev pub untagged : Nexts → Links
untagged n i = record { next_idx = n i; mac = 0 }

module _ {B : Type 0} (w : ℕ) (r : FixedRange B) (backing : B) (l : NonZeroLayout) (shift : ℕ) where
  -- The slab with the same fields.
  abbrev pub as_slab : UntypedSlab → Slab B NoProtection
  as_slab u = record {
    backing = backing;
    mac = NoProtection.no_protection;
    base_offset = u.base_offset;
    free_head = u.free_head;
    next_uncarved = u.next_uncarved;
    block_stride = u.block_stride;
    stride_shift = shift;
    capacity = u.capacity;
    backing_layout = l;
    corruption_events = u.corruption_events;
  }

  -- A slot as a block of the whole stride.
  abbrev pub as_block : UntypedSlab → Option ℕ → Option Block
  as_block u none = none
  as_block u (some p) = some (record { address = p; length = u.block_stride })

  slot_index-eq :
      (u : UntypedSlab) (p : ℕ)
      → IsShaped (as_slab u)
      → Slab.slot_index r (as_slab u) p ≡ slot_index u (r.base backing) p
  unfolding slot_index Slab.slot_index Slab.base_ptr
  slot_index-eq u p h =
      let split : Slab.split_offset r (as_slab u) (p - (r.base backing + u.base_offset)) ≡ (
        (p - (r.base backing + u.base_offset)) / u.block_stride,
        (p - (r.base backing + u.base_offset)) % u.block_stride,
      ) =
        split_offset-eq r (as_slab u) h (p - (r.base backing + u.base_offset)) in
      ground (arith, split)

  -- `allocate_slot` takes the same slot, or none, as `Slab::allocate` does without protection after its
  -- checks of the layout, and leaves the same slab: free list, fresh slots and counter.
  pub allocate_slot-take_slot :
      (u : UntypedSlab) (n : Nexts)
      → let (u', got) = allocate_slot w u n (r.base backing) in
        (as_slab u', as_block u got) ≡ Slab.take_slot r unprotected w (as_slab u) (untagged n)
  unfolding allocate_slot Slab.take_slot Slab.slot_ptr Slab.base_ptr
  allocate_slot-take_slot u n = ground arith

  write-untagged :
      (n : Nexts) (idx next : ℕ)
      → untagged (write_next n idx next)
        ≡ write_link (untagged n) idx (record { next_idx = next; mac = 0 })
  write-untagged n idx next = fun_ext (λ i. ground arith)

  -- Over a slab with a stride of at least 8 and fewer than 2 ^ 32 slots `free_slot` does to the free list and the links what
  -- `Slab::deallocate` does without protection, where the pointer is a slot; any other
  -- pointer leaves both as they are, and `free_slot` alone counts it.
  pub free_slot-deallocate :
      (u : UntypedSlab) (n : Nexts) (p : ℕ) (fl : NonZeroLayout)
      → IsShaped (as_slab u)
      → let (u', n') = free_slot w u n (r.base backing) p in
        let (s', m') = Slab.deallocate r unprotected (as_slab u) (untagged n) p fl in
        ((i : ℕ)
          → slot_index u (r.base backing) p ≡ some i
          → (as_slab u' ≡ s') × (untagged n' ≡ m'))
        × (slot_index u (r.base backing) p ≡ none
            → (s' ≡ as_slab u)
              × (m' ≡ untagged n)
              × (n' ≡ n)
              × (u' ≡ record u { corruption_events = (u.corruption_events + 1) % 2 ^ w }))
  unfolding free_slot Slab.deallocate Slab.push
  free_slot-deallocate u n p fl h = (
    λ i found.
        let there : Slab.slot_index r (as_slab u) p ≡ some i = slot_index-eq u p h ∙ found in
        let written : (free_slot w u n (r.base backing) p).1 ≡ write_next n i u.free_head =
          ground (arith, found) in
        let pushed : (Slab.deallocate r unprotected (as_slab u) (untagged n) p fl).1
            ≡ write_link (untagged n) i (record { next_idx = u.free_head; mac = 0 }) =
          ground (arith, there) in
        (
          ground (arith, found, there),
          ap untagged written ∙ write-untagged n i u.free_head ∙ sym pushed,
        ),
    λ lost.
        let there : Slab.slot_index r (as_slab u) p ≡ none = slot_index-eq u p h ∙ lost in
        (
          ground (arith, lost, there),
          ground (arith, lost, there),
          ground (arith, lost, there),
          ground (arith, lost, there),
        ),
  )
