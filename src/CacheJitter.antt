-- ===== src/CacheJitter.antt =====
-- crates/forge-alloc/src/hardening/cache_jitter.rs: `CacheJitter<I>` over an inner allocator with state `S`.
-- `w` is the width of `usize`; the header, the key and the generator have 64 bits. A panic is `none`.
pub mod Header
pub mod Place
pub mod Recover
mod Tests
use Prim.Native.Nat.{bit_or, bit_xor}
use forge_alloc.Base.{
  ℕ, ◌+◌, ◌-◌, ◌*◌, ◌/◌, ◌%◌, ◌^◌, bit_and, Bool, true, false, not, ◌||◌, Option, none, some, ltb,
  ◌==◌, if◌then◌else◌, ◌>>=◌,
}
use forge_alloc.Word.Defs.{checked_add, checked_mul, is_power_of_two, trailing_zeros}
use forge_alloc.Core.Layout.{NonZeroLayout, from_size_align}
use forge_alloc.Core.Bytes.{byte, of_bytes}
use forge_alloc.Core.Memory.{Memory, write}
use forge_alloc.Core.Range.{Block}
use forge_alloc.Core.Allocator.{Allocator}

pub record CacheJitter (S : Type 0) : Type 0 where
  pub inner : S
  pub cache_line_size : ℕ
  pub associativity : ℕ
  pub line_shift : ℕ
  pub mac_key : ℕ
  pub rng : ℕ

-- The operations of `u64`.
abbrev shl : ℕ → ℕ → ℕ
shl x k = (x * 2 ^ k) % 2 ^ 64

abbrev shr : ℕ → ℕ → ℕ
shr x k = x / 2 ^ k

abbrev wrapping_mul : ℕ → ℕ → ℕ
wrapping_mul a b = (a * b) % 2 ^ 64

abbrev rotate_left : ℕ → ℕ → ℕ
rotate_left x k = bit_or (shl x k) (shr x (64 - k))

unfoldable pub derive_key : ℕ → ℕ
derive_key seed =
    let x = (seed + 11400714819323198485) % 2 ^ 64 in
    let y = wrapping_mul (bit_xor x (shr x 30)) 13787848793156543929 in
    let z = wrapping_mul (bit_xor y (shr y 27)) 10723151780598845931 in bit_xor z (shr z 31)

unfoldable pub with_params : ℕ → {S : Type 0} → S → ℕ → ℕ → ℕ → Option (CacheJitter S)
unfolding derive_key
with_params w inner cache_line_size associativity seed =
    if not (is_power_of_two w cache_line_size) || ltb cache_line_size 8
    then none
    else if associativity == 0 || ltb (2 ^ 16 - 1) associativity
    then none
    else do
      product ← checked_mul w cache_line_size associativity
      let seed' = if seed == 0 then 11400714819323198485 else seed
      some (record {
        inner = inner;
        cache_line_size = cache_line_size;
        associativity = associativity;
        line_shift = trailing_zeros w cache_line_size;
        mac_key = derive_key seed';
        rng = seed';
      })

module _ {S : Type 0} where
  unfoldable pub max_displacement : CacheJitter S → ℕ
  max_displacement c = (c.associativity - 1) * c.cache_line_size

  unfoldable pub jitter_prefix : CacheJitter S → ℕ
  unfolding max_displacement
  jitter_prefix c = c.cache_line_size + max_displacement c

  unfoldable pub next_rng : CacheJitter S → CacheJitter S × ℕ
  next_rng c =
      let x = bit_xor c.rng (shl c.rng 13) in
      let y = bit_xor x (shr x 7) in let z = bit_xor y (shl y 17) in (record c { rng = z }, z)

  unfoldable pub next_displacement : CacheJitter S → CacheJitter S × ℕ
  unfolding next_rng
  next_displacement c =
      let (c', x) = next_rng c in (c', x * c.associativity / 2 ^ 64 * c.cache_line_size)

  unfoldable pub header_mix : CacheJitter S → ℕ → ℕ → ℕ
  header_mix c user_ptr_addr disp_lines =
      let x = wrapping_mul (bit_xor c.mac_key user_ptr_addr) 11400714819323198485 in
      let y = bit_xor (bit_xor x (rotate_left x 31)) disp_lines in
      let z = wrapping_mul y 13787848793156543929 in
      let u = wrapping_mul (bit_xor z (shr z 27)) 10723151780598845931 in bit_xor u (shr u 31)

  unfoldable pub pack_header : CacheJitter S → ℕ → ℕ → ℕ
  unfolding header_mix
  pack_header c user_ptr_addr disp_bytes =
      let disp_lines = shr disp_bytes c.line_shift in
      let mac48 = shr (header_mix c user_ptr_addr disp_lines) 16 in
      bit_or (shl mac48 16) (bit_and disp_lines (2 ^ 16 - 1))

  unfoldable pub unpack_header : ℕ → CacheJitter S → ℕ → ℕ → Option ℕ
  unfolding header_mix max_displacement
  unpack_header w c user_ptr_addr header =
      let disp_lines = bit_and header (2 ^ 16 - 1) in
      let expected_mac48 = shr (header_mix c user_ptr_addr disp_lines) 16 in
      if not (shr header 16 == expected_mac48)
      then none
      else let disp_bytes = (disp_lines * 2 ^ c.line_shift) % 2 ^ w in
        if ltb (max_displacement c) disp_bytes then none else some disp_bytes

-- The outer `none` is a layout that is forwarded as it is, the inner one an error.
unfoldable pub inner_layout_for : ℕ → NonZeroLayout → ℕ → ℕ → Option (Option NonZeroLayout)
unfolding from_size_align
inner_layout_for w l cache_line_size prefix =
    if ltb cache_line_size l.align
    then none
    else some (checked_add w l.size prefix >>= λ total. from_size_align w total cache_line_size)

module _ {S : Type 0} (w : ℕ) (al : Allocator S) where
  abbrev pub set_inner : CacheJitter S → S → CacheJitter S
  set_inner c s = record c { inner = s }

  -- A block of the inner allocator with a displacement drawn and its header written.
  unfoldable pub displace :
      CacheJitter S → Memory → Block → NonZeroLayout → CacheJitter S × Memory × Option Block
  unfolding next_displacement pack_header byte
  displace c m b l =
      let (c', displacement) = next_displacement c in
      let user_ptr = b.address + (c.cache_line_size + displacement) in
      (
        c',
        write (user_ptr - 8) 8 (byte (pack_header c user_ptr displacement)) m,
        some (record { address = user_ptr; length = l.size }),
      )

  unfoldable pub allocate :
      CacheJitter S → Memory → NonZeroLayout → CacheJitter S × Memory × Option Block
  unfolding jitter_prefix inner_layout_for displace
  allocate c m l = elim (inner_layout_for w l c.cache_line_size (jitter_prefix c)) [
    | none ↦ let (s, got) = al.allocate c.inner l in (set_inner c s, m, got)
    | some inner ↦ elim inner [
      | none ↦ (c, m, none)
      | some il ↦
          let (s, got) = al.allocate c.inner il in
          elim got [ none ↦ (set_inner c s, m, none) | some b ↦ displace (set_inner c s) m b l ]
    ]
  ]

  -- The header before the pointer.
  unfoldable pub read_header : Memory → ℕ → ℕ
  unfolding of_bytes
  read_header m ptr = of_bytes 8 (λ i. m (ptr - 8 + i))

  unfoldable pub deallocate : CacheJitter S → Memory → ℕ → NonZeroLayout → Option (CacheJitter S)
  unfolding jitter_prefix inner_layout_for unpack_header read_header
  deallocate c m ptr l = elim (inner_layout_for w l c.cache_line_size (jitter_prefix c)) [
    | none ↦ some (set_inner c (al.deallocate c.inner ptr l))
    | some inner ↦ elim inner [
      | none ↦ none
      | some il ↦ elim (unpack_header w c ptr (read_header m ptr)) [
        | none ↦ none
        | some displacement ↦
            some (set_inner c (al.deallocate c.inner (ptr - (c.cache_line_size + displacement)) il))
      ]
    ]
  ]
