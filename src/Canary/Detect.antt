-- ===== src/Canary/Detect.antt =====
-- What freeing a block tells of the words on both sides of it.
use native.Mathlib.Nat.{add-sub_cancel}
use forge_alloc.Base.{
  ℕ, ◌+◌, ◌-◌, ◌^◌, ◌≤◌, ◌<◌, ◌≡◌, inl, inr, refl, sym, subst, ◌∙◌, arith, true, Bool-cases, Option,
  none, some,
}
use forge_alloc.Core.Layout.{NonZeroLayout}
use forge_alloc.Core.Memory.{Memory, write, write_written, write_kept}
use forge_alloc.Core.Range.{Block}
use forge_alloc.Core.Allocator.{Allocator}
use forge_alloc.Canary.{
  Canary, pre_pad, inner_layout, verify, volatile_zero_canary, place_canaries, allocate, deallocate,
}
use forge_alloc.Core.Bytes.{byte, byte-bound, of_bytes-byte, of_bytes_cong, of_bytes_inj}

-- The eight bytes on each side of a block are as they were.
abbrev pub Intact : Memory → Memory → ℕ → ℕ → Type 0
Intact before after ptr size =
    ((i : ℕ) → i < 8 → after (ptr - 8 + i) ≡ before (ptr - 8 + i))
    × ((i : ℕ) → i < 8 → after (ptr + size + i) ≡ before (ptr + size + i))

verify_reads :
    (value : ℕ) (m : Memory) (ptr : ℕ)
    → value < 256 ^ 8
    → ((i : ℕ) → i < 8 → m (ptr + i) ≡ byte value i)
    → verify value m ptr ≡ true
unfolding verify
verify_reads value m ptr small same =
    ground
      (arith, of_bytes_cong 8 (λ i. m (ptr + i)) (byte value) same, of_bytes-byte 8 value small)

verify_sees :
    (value : ℕ) (m : Memory) (ptr : ℕ)
    → value < 256 ^ 8
    → ((a : ℕ) → m a < 256)
    → verify value m ptr ≡ true
    → (i : ℕ) → i < 8
    → m (ptr + i) ≡ byte value i
unfolding verify
verify_sees value m ptr small bytes ok =
    of_bytes_inj 8 (λ i. m (ptr + i)) (byte value) (λ i. bytes (ptr + i)) (byte-bound value)
      (ground (arith, ok, of_bytes-byte 8 value small))

place_canaries-pre :
    (value ptr size : ℕ) (m : Memory) (i : ℕ)
    → 8 ≤ ptr
    → i < 8
    → place_canaries value ptr size m (ptr - 8 + i) ≡ byte value i
unfolding place_canaries
place_canaries-pre value ptr size m i room below =
    write_kept (ptr + size) 8 (byte value) (write (ptr - 8) 8 (byte value) m) (ptr - 8 + i)
      (inl (omega arith))
    ∙ write_written (ptr - 8) 8 (byte value) m i below

place_canaries-post :
    (value ptr size : ℕ) (m : Memory) (i : ℕ)
    → i < 8
    → place_canaries value ptr size m (ptr + size + i) ≡ byte value i
unfolding place_canaries
place_canaries-post value ptr size m i below =
    write_written (ptr + size) 8 (byte value) (write (ptr - 8) 8 (byte value) m) i below

pre_pad-eight : (align : ℕ) → 8 ≤ pre_pad align
unfolding pre_pad
pre_pad-eight align = ground arith

module _ {S : Type 0} (w : ℕ) (al : Allocator S) where
  -- Freeing a block whose words the bytes of memory keep, and one whose words they do not.
  abbrev Detects : Canary S → Memory → Memory → ℕ → NonZeroLayout → S → Type 0
  Detects c before after ptr l given =
      (Intact before after ptr l.size
        → deallocate w al c after ptr l
          ≡ some (
            record c { inner = given },
            volatile_zero_canary (ptr + l.size) (volatile_zero_canary (ptr - 8) after),
          ))
      × ((¬ (Intact before after ptr l.size)) → deallocate w al c after ptr l ≡ none)

  placed-Detects :
      (c : Canary S) (m after : Memory) (l il : NonZeroLayout) (address : ℕ)
      → c.value < 256 ^ 8
      → inner_layout w l ≡ some il
      → ((a : ℕ) → after a < 256)
      → let ptr = address + pre_pad l.align in
        Detects c
          (place_canaries c.value ptr l.size m)
          after
          ptr
          l
          (al.deallocate c.inner address il)
  unfolding deallocate
  placed-Detects c m after l il address small fits bytes =
      let ptr : ℕ = address + pre_pad l.align in
      let room : 8 ≤ ptr = omega (arith, pre_pad-eight l.align) in
      let back : ptr - pre_pad l.align ≡ address = add-sub_cancel address (pre_pad l.align) in
      (
        λ intact.
            let pre : verify c.value after (ptr - 8) ≡ true =
              verify_reads c.value after (ptr - 8) small (λ i below.
                intact.0 i below ∙ place_canaries-pre c.value ptr l.size m i room below) in
            let post : verify c.value after (ptr + l.size) ≡ true =
              verify_reads c.value after (ptr + l.size) small
                (λ i below. intact.1 i below ∙ place_canaries-post c.value ptr l.size m i below) in
            ground (arith, pre, post, fits, back),
        λ broken. elim (Bool-cases (verify c.value after (ptr - 8))) [
          | inr bad ↦ ground (arith, bad)
          | inl pre ↦ elim (Bool-cases (verify c.value after (ptr + l.size))) [
            | inr bad ↦ ground (arith, bad, pre)
            | inl post ↦ absurd (
                broken (
                  λ i below.
                      verify_sees c.value after (ptr - 8) small bytes pre i below
                      ∙ sym (place_canaries-pre c.value ptr l.size m i room below),
                  λ i below.
                      verify_sees c.value after (ptr + l.size) small bytes post i below
                      ∙ sym (place_canaries-post c.value ptr l.size m i below),
                ))
          ]
        ],
      )

  -- Where the inner allocator serves the larger layout, the call answers a block of the size that was
  -- asked for. Whatever the memory of bytes is when the block is freed: if the eight bytes before it and
  -- the eight bytes after it are as the call left them, the free gives the inner allocator back the very
  -- block and layout that it served and clears those bytes; if any of them differs, the free panics.
  pub deallocate_detects :
      (c : Canary S) (m after : Memory) (l il : NonZeroLayout) (b : Block)
      → c.value < 256 ^ 8
      → inner_layout w l ≡ some il
      → (al.allocate c.inner il).1 ≡ some b
      → ((a : ℕ) → after a < 256)
      → let out = allocate w al c m l in
        let ptr = b.address + pre_pad l.align in
        (out.2 ≡ some (record { address = ptr; length = l.size }))
        × (Intact out.1 after ptr l.size
            → deallocate w al out.0 after ptr l
              ≡ some (
                record c { inner = al.deallocate (al.allocate c.inner il).0 b.address il },
                volatile_zero_canary (ptr + l.size) (volatile_zero_canary (ptr - 8) after),
              ))
        × ((¬ (Intact out.1 after ptr l.size)) → deallocate w al out.0 after ptr l ≡ none)
  unfolding allocate
  deallocate_detects c m after l il b small fits got bytes =
      let ptr : ℕ = b.address + pre_pad l.align in
      let given : S = (al.allocate c.inner il).0 in
      let c' : Canary S = record c { inner = given } in
      let served : allocate w al c m l ≡ (
        c',
        place_canaries c.value ptr l.size m,
        some (record { address = ptr; length = l.size }),
      ) =
        ground (arith, fits, got) in
      let (kept, changed) = placed-Detects c' m after l il b.address small fits bytes in
      subst
        (λ (out : Canary S × Memory × Option Block).
          (out.2 ≡ some (record { address = ptr; length = l.size }))
          × (Intact out.1 after ptr l.size
              → deallocate w al out.0 after ptr l
                ≡ some (
                  record c { inner = al.deallocate given b.address il },
                  volatile_zero_canary (ptr + l.size) (volatile_zero_canary (ptr - 8) after),
                ))
          × ((¬ (Intact out.1 after ptr l.size)) → deallocate w al out.0 after ptr l ≡ none))
        (sym served) (refl, kept, changed)
