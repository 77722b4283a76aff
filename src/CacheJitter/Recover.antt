-- ===== src/CacheJitter/Recover.antt =====
-- What freeing a block gives back to the inner allocator.
use mathlib.Core.Option.{some-injective}
use native.Mathlib.Nat.{add-sub_cancel}
use forge_alloc.Base.{
  ℕ, ◌+◌, ◌-◌, ◌*◌, ◌^◌, ◌≤◌, ◌<◌, ◌≡◌, refl, sym, ap, subst, ◌∙◌, inl, inr, arith, Option, some,
  Option-cases,
}
use forge_alloc.Word.Align.{IsAlign, IsAligned}
use forge_alloc.Core.Layout.{NonZeroLayout}
use forge_alloc.Core.Bytes.{byte, of_bytes, of_bytes-byte, of_bytes_cong}
use forge_alloc.Core.Memory.{Memory, write, write_written}
use forge_alloc.Core.Range.{Block}
use forge_alloc.Core.Allocator.{Allocator}
use forge_alloc.CacheJitter.{
  CacheJitter, max_displacement, jitter_prefix, next_displacement, pack_header, unpack_header,
  inner_layout_for, displace, set_inner, allocate, read_header, deallocate,
}
use forge_alloc.CacheJitter.Header.{
  IsValid, lines-le, pack_header-bound, unpack_header-pack_header, unpack_header-lines,
}
use forge_alloc.CacheJitter.Place.{next_displacement-lines, inner_layout_for-layout, line-IsAligned}

module _ {S : Type 0} (w : ℕ) (al : Allocator S) where
  -- A block `k` lines and the header's line behind the inner block: inside it with its header, aligned where
  -- the inner block is, and given back as the inner block where its header is as it was written,
  -- whatever has happened to the inner allocator and the generator since.
  pub record Jittered (c : CacheJitter S) (l il : NonZeroLayout) (b : Block) (k : ℕ)
      (out : CacheJitter S × Memory × Option Block) : Type 0 where
    pub ways : k < c.associativity
    pub answer :
        out.2
        ≡ some (record {
          address = b.address + (c.cache_line_size + k * c.cache_line_size);
          length = l.size;
        })
    pub valid : IsValid w out.0
    pub header : b.address + 8 ≤ b.address + (c.cache_line_size + k * c.cache_line_size)
    pub within :
        b.address + (c.cache_line_size + k * c.cache_line_size) + l.size ≤ b.address + il.size
    pub aligned :
        IsAlign w l.align
        → IsAligned b.address il.align
        → IsAligned (b.address + (c.cache_line_size + k * c.cache_line_size)) l.align
    pub back :
        (after : Memory) (s : S) (r : ℕ)
        → let ptr = b.address + (c.cache_line_size + k * c.cache_line_size) in
          ((i : ℕ) → i < 8 → after (ptr - 8 + i) ≡ out.1 (ptr - 8 + i))
          → deallocate w al (record c { inner = s; rng = r }) after ptr l
            ≡ some (record c { inner = al.deallocate s b.address il; rng = r })

  deallocate-found :
      (c : CacheJitter S) (m : Memory) (ptr : ℕ) (l il : NonZeroLayout) (displacement : ℕ)
      → inner_layout_for w l c.cache_line_size (jitter_prefix c) ≡ some (some il)
      → unpack_header w c ptr (read_header w al m ptr) ≡ some displacement
      → deallocate w al c m ptr l
        ≡ some
            (set_inner w al c (al.deallocate c.inner (ptr - (c.cache_line_size + displacement)) il))
  unfolding deallocate
  deallocate-found c m ptr l il displacement fits found = rw (fits, found, deallocate) refl

  -- For a jitter whose parameters are in order, and a layout that it displaces: where a free does not panic,
  -- what the inner allocator gets back lies the header's line and fewer lines than there are ways
  -- before the pointer, with the layout that was asked of it, whatever stands in memory.
  pub deallocate-Confined :
      (c : CacheJitter S) (m : Memory) (ptr : ℕ) (l il : NonZeroLayout) (c' : CacheJitter S)
      → IsValid w c
      → inner_layout_for w l c.cache_line_size (jitter_prefix c) ≡ some (some il)
      → deallocate w al c m ptr l ≡ some c'
      → (k : ℕ) × (k < c.associativity)
        × (c' ≡ record c {
          inner = al.deallocate c.inner (ptr - (c.cache_line_size + k * c.cache_line_size)) il;
        })
  unfolding deallocate
  deallocate-Confined c m ptr l il c' v fits e =
      elim (Option-cases (unpack_header w c ptr (read_header w al m ptr))) [
        | inl corrupt ↦ absurd (ground (arith, e, fits, corrupt))
        | inr (displacement, found) ↦
            let (k, few, lines) =
              unpack_header-lines w c v ptr (read_header w al m ptr) displacement found in
            (
              k,
              few,
              some-injective c' _ (sym e ∙ deallocate-found c m ptr l il displacement fits found)
                  ∙ ap
                      (λ (t : ℕ).
                        set_inner w al c (al.deallocate c.inner (ptr - (c.cache_line_size + t)) il))
                      lines,
            )
      ]

  prefix : (c : CacheJitter S) → jitter_prefix c ≡ c.cache_line_size + max_displacement c
  unfolding jitter_prefix
  prefix c = refl

  returned :
      (c : CacheJitter S) (l il : NonZeroLayout) (b : Block) (k : ℕ)
      → IsValid w c
      → k < c.associativity
      → inner_layout_for w l c.cache_line_size (jitter_prefix c) ≡ some (some il)
      → (after : Memory) (s : S) (r : ℕ)
      → let ptr = b.address + (c.cache_line_size + k * c.cache_line_size) in
        ((i : ℕ) → i < 8 → after (ptr - 8 + i) ≡ byte (pack_header c ptr (k * c.cache_line_size)) i)
        → deallocate w al (record c { inner = s; rng = r }) after ptr l
          ≡ some (record c { inner = al.deallocate s b.address il; rng = r })
  unfolding read_header jitter_prefix unpack_header
  returned c l il b k v few fits after s r same =
      let ptr : ℕ = b.address + (c.cache_line_size + k * c.cache_line_size) in
      let header : ℕ = pack_header c ptr (k * c.cache_line_size) in
      let read : of_bytes 8 (λ i. after (ptr - 8 + i)) ≡ header =
        of_bytes_cong 8 (λ i. after (ptr - 8 + i)) (byte header) same
        ∙ of_bytes-byte 8 header (pack_header-bound w c v ptr k few) in
      let found : unpack_header w c ptr (of_bytes 8 (λ i. after (ptr - 8 + i)))
          ≡ some (k * c.cache_line_size) =
        ap (unpack_header w c ptr) read ∙ unpack_header-pack_header w c v ptr k few in
      deallocate-found (record c { inner = s; rng = r }) after ptr l il (k * c.cache_line_size) fits
        found
      ∙ ap (λ (t : ℕ). some (record c { inner = al.deallocate s t il; rng = r }))
          (add-sub_cancel b.address (c.cache_line_size + k * c.cache_line_size))

  displaced :
      (c : CacheJitter S) (m : Memory) (l il : NonZeroLayout) (b : Block) (s : S) (k r : ℕ)
      → IsValid w c
      → k < c.associativity
      → r < 2 ^ 64
      → next_displacement (set_inner w al c s)
        ≡ (record c { inner = s; rng = r }, k * c.cache_line_size)
      → inner_layout_for w l c.cache_line_size (jitter_prefix c) ≡ some (some il)
      → Jittered c l il b k (displace w al (set_inner w al c s) m b l)
  unfolding displace
  displaced c m l il b s k r v few word drawn fits =
      let ptr : ℕ = b.address + (c.cache_line_size + k * c.cache_line_size) in
      let header : ℕ = pack_header c ptr (k * c.cache_line_size) in
      let out : displace w al (set_inner w al c s) m b l ≡ (
        record c { inner = s; rng = r },
        write (ptr - 8) 8 (byte header) m,
        some (record { address = ptr; length = l.size }),
      ) =
        ap
          (λ (x : CacheJitter S × ℕ). (
            x.0,
            write (b.address + (c.cache_line_size + x.1) - 8) 8
                (byte (pack_header c (b.address + (c.cache_line_size + x.1)) x.1)) m,
            some (record { address = b.address + (c.cache_line_size + x.1); length = l.size }),
          ))
          drawn in
      let (size, align, le) =
        inner_layout_for-layout w l c.cache_line_size (jitter_prefix c) fits in
      let lines : k * c.cache_line_size ≤ max_displacement c = lines-le w c v k few in
      subst (Jittered c l il b k) (sym out) (record {
        ways = few;
        answer = refl;
        valid = record {
          power = v.power;
          narrow = v.narrow;
          line = v.line;
          ways = v.ways;
          few = v.few;
          product = v.product;
          state = word;
        };
        header = omega (arith, v.line);
        within = omega (arith, size, lines, prefix c);
        aligned = λ al at.
            line-IsAligned w c.line_shift c.cache_line_size l.align b.address k v.power al le
              (subst (λ (t : ℕ). IsAligned b.address t) align at);
        back = λ after s' r' same.
            returned c l il b k v few fits after s' r'
              (λ i below. same i below ∙ write_written (ptr - 8) 8 (byte header) m i below);
      })

  -- For a jitter whose parameters are in order, and a layout that it displaces: where the inner allocator
  -- serves the larger layout, the block lies some lines, fewer than there are ways, behind the header's
  -- line, inside the inner block with its header before it, aligned as asked where the inner block is;
  -- and freed with the header as it was written, whatever has happened to the inner allocator and the
  -- generator since, exactly the inner block and its layout are given back.
  pub allocate-Jittered :
      (c : CacheJitter S) (m : Memory) (l il : NonZeroLayout) (b : Block)
      → IsValid w c
      → inner_layout_for w l c.cache_line_size (jitter_prefix c) ≡ some (some il)
      → (al.allocate c.inner il).1 ≡ some b
      → (k : ℕ) × Jittered c l il b k (allocate w al c m l)
  unfolding allocate
  allocate-Jittered c m l il b v fits got =
      let c1 : CacheJitter S = set_inner w al c (al.allocate c.inner il).0 in
      let v1 : IsValid w c1 = record {
        power = v.power;
        narrow = v.narrow;
        line = v.line;
        ways = v.ways;
        few = v.few;
        product = v.product;
        state = v.state;
      } in
      let (k, r, few, word, drawn) = next_displacement-lines w c1 v1 in
      let served : allocate w al c m l ≡ displace w al c1 m b l = rw (fits, got, allocate) refl in
      (
        k,
        subst (Jittered c l il b k) (sym served)
            (displaced c m l il b (al.allocate c.inner il).0 k r v few word drawn fits),
      )
