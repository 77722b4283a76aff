-- ===== src/CacheJitter/Header.antt =====
-- The header of a block: the displacement in lines, under a keyed mix of the address.
use Prim.Native.Nat.{bit_or, bit_xor}
use native.Mathlib.Nat.{
  mul_comm, mul_assoc, mul-sub, mod-eq-sub-div-mul, le_of_mul-le-mul_right, mul-div_left,
  mul-le-mul_right, mul-lt-mul_of_pos_right, mod-eq_of_lt,
}
use forge_alloc.Base.{
  ℕ, ◌+◌, ◌-◌, ◌*◌, ◌/◌, ◌%◌, ◌^◌, ◌≤◌, ◌<◌, ◌≡◌, sym, ap, subst, ◌∙◌, arith, bit_and, not, none,
  some, ltb, ◌==◌, if◌then◌else◌,
}
use forge_alloc.Word.Bits.{bit_and_mask, two-pow-pos}
use forge_alloc.Word.Fields.{bit_or_sum, bit_xor-bound}
use forge_alloc.Word.Align.{two-pow-split}
use forge_alloc.CacheJitter.{CacheJitter, max_displacement, header_mix, pack_header, unpack_header}

-- What `with_params` makes of its parameters, and every operation keeps.
pub record IsValid (w : ℕ) {S : Type 0} (c : CacheJitter S) : Type 0 where
  pub power : c.cache_line_size ≡ 2 ^ c.line_shift
  pub narrow : c.line_shift < w
  pub line : 8 ≤ c.cache_line_size
  pub ways : 1 ≤ c.associativity
  pub few : c.associativity < 2 ^ 16
  pub product : c.cache_line_size * c.associativity < 2 ^ w
  pub state : c.rng < 2 ^ 64

sub-mul : (m n k : ℕ) → (m - n) * k ≡ m * k - n * k
sub-mul m n k = omega (arith, mul_comm (m - n) k, mul-sub k m n, mul_comm k m, mul_comm k n)

fold-bound : (x : ℕ) → x < 2 ^ 64 → bit_xor x (x / 2 ^ 31) < 2 ^ 64
fold-bound x h = bit_xor-bound 64 x (x / 2 ^ 31) h (omega (arith, h))

-- A mix and a count of lines, packed, are a sum; unpacked, they are the two again.
pack-fields :
    (mix lines : ℕ)
    → mix < 2 ^ 64
    → lines < 2 ^ 16
    → bit_or ((mix / 2 ^ 16 * 2 ^ 16) % 2 ^ 64) (bit_and lines (2 ^ 16 - 1))
      ≡ mix / 2 ^ 16 * 2 ^ 16 + lines
pack-fields mix lines hm hl =
    let high : (mix / 2 ^ 16 * 2 ^ 16) % 2 ^ 64 ≡ mix / 2 ^ 16 * 2 ^ 16 = omega (arith, hm) in
    let low : bit_and lines (2 ^ 16 - 1) ≡ lines = bit_and_mask 16 lines ∙ omega (arith, hl) in
    ap (λ (t : ℕ). bit_or t (bit_and lines (2 ^ 16 - 1))) high
    ∙ ap (bit_or (mix / 2 ^ 16 * 2 ^ 16)) low
    ∙ bit_or_sum 16 (mix / 2 ^ 16) lines hl

module _ {S : Type 0} where
  header_mix-bound : (c : CacheJitter S) (addr lines : ℕ) → header_mix c addr lines < 2 ^ 64
  unfolding header_mix
  header_mix-bound c addr lines = fold-bound _ (omega arith)

  pack_header-fields :
      (c : CacheJitter S) (addr lines bytes : ℕ)
      → bytes / 2 ^ c.line_shift ≡ lines
      → lines < 2 ^ 16
      → pack_header c addr bytes ≡ header_mix c addr lines / 2 ^ 16 * 2 ^ 16 + lines
  unfolding pack_header
  pack_header-fields c addr lines bytes same few =
      ap
        (λ (t : ℕ).
          bit_or ((header_mix c addr t / 2 ^ 16 * 2 ^ 16) % 2 ^ 64) (bit_and t (2 ^ 16 - 1)))
        same
      ∙ pack-fields (header_mix c addr lines) lines (header_mix-bound c addr lines) few

module _ (w : ℕ) {S : Type 0} (c : CacheJitter S) (v : IsValid w c) where
  pub lines-le : (k : ℕ) → k < c.associativity → k * c.cache_line_size ≤ max_displacement c
  unfolding max_displacement
  lines-le k h = mul-le-mul_right c.cache_line_size (omega (arith, h))

  line_count : (k : ℕ) → k * c.cache_line_size / 2 ^ c.line_shift ≡ k
  line_count k =
      ap (λ (t : ℕ). k * t / 2 ^ c.line_shift) v.power ∙ mul-div_left k (two-pow-pos c.line_shift)

  displacement-lt : (k : ℕ) → k < c.associativity → k * c.cache_line_size < 2 ^ w
  displacement-lt k h = omega (
    arith,
    mul-lt-mul_of_pos_right {k = c.cache_line_size} h (omega (arith, v.line)),
    mul_comm c.cache_line_size c.associativity,
    v.product,
  )

  -- A displacement of fewer lines than there are ways is found again in its header.
  pub unpack_header-pack_header :
      (addr k : ℕ)
      → k < c.associativity
      → unpack_header w c addr (pack_header c addr (k * c.cache_line_size))
        ≡ some (k * c.cache_line_size)
  unfolding unpack_header
  unpack_header-pack_header addr k h =
      let few : k < 2 ^ 16 = omega (arith, h, v.few) in
      let lines : k * c.cache_line_size / 2 ^ c.line_shift ≡ k = line_count k in
      let header : ℕ = pack_header c addr (k * c.cache_line_size) in
      let fields : header ≡ header_mix c addr k / 2 ^ 16 * 2 ^ 16 + k =
        pack_header-fields c addr k (k * c.cache_line_size) lines few in
      let low : bit_and header (2 ^ 16 - 1) ≡ k =
        bit_and_mask 16 header ∙ omega (arith, fields, few) in
      let high : header / 2 ^ 16 ≡ header_mix c addr k / 2 ^ 16 = omega (arith, fields, few) in
      let small : k * c.cache_line_size ≤ max_displacement c = lines-le k h in
      let wide : k * c.cache_line_size < 2 ^ w = displacement-lt k h in
      let bytes : (k * 2 ^ c.line_shift) % 2 ^ w ≡ k * c.cache_line_size =
        ap (λ (t : ℕ). (k * t) % 2 ^ w) (sym v.power) ∙ mod-eq_of_lt wide in
      subst
        (λ (t : ℕ).
          (if not (header / 2 ^ 16 == header_mix c addr t / 2 ^ 16)
            then none
            else if ltb (max_displacement c) ((t * 2 ^ c.line_shift) % 2 ^ w)
            then none
            else some ((t * 2 ^ c.line_shift) % 2 ^ w))
          ≡ some (k * c.cache_line_size))
        (sym low) (ground (arith, high, bytes, small))

  -- A number of lines that wraps around is a number of lines.
  wraps_to_lines : (a : ℕ) → (k : ℕ) × ((a * 2 ^ c.line_shift) % 2 ^ w ≡ k * c.cache_line_size)
  wraps_to_lines a =
      let d : ℕ = 2 ^ c.line_shift in
      let q : ℕ = 2 ^ (w - c.line_shift) in
      let t : ℕ = a * d / 2 ^ w in
      let top : t * 2 ^ w ≡ t * q * d =
        ap (λ (x : ℕ). t * x) (two-pow-split c.line_shift w (omega (arith, v.narrow)))
        ∙ sym (mul_assoc t q d) in
      (
        a - t * q,
        mod-eq-sub-div-mul (a * d) (2 ^ w)
            ∙ ap (λ (x : ℕ). a * d - x) top
            ∙ sym (sub-mul a (t * q) d)
            ∙ ap (λ (x : ℕ). (a - t * q) * x) (sym v.power),
      )

  few_lines : (k : ℕ) → k * c.cache_line_size ≤ max_displacement c → k < c.associativity
  unfolding max_displacement
  few_lines k h = omega (
    arith,
    le_of_mul-le-mul_right {m = k} {n = c.associativity - 1} {k = c.cache_line_size} h
        (omega (arith, v.line)),
    v.ways,
  )

  -- Whatever the header, what is found is a number of lines below the number of ways.
  pub unpack_header-lines :
      (addr header displacement : ℕ)
      → unpack_header w c addr header ≡ some displacement
      → (k : ℕ) × (k < c.associativity) × (displacement ≡ k * c.cache_line_size)
  unfolding unpack_header
  unpack_header-lines addr header displacement e =
      let found : ℕ = bit_and header (2 ^ 16 - 1) in
      let (k, wrapped) = wraps_to_lines found in
      let same : displacement ≡ k * c.cache_line_size = ground (arith, e, wrapped) in
      let small : displacement ≤ max_displacement c = ground (arith, e) in
      (k, few_lines k (omega (arith, same, small)), same)

  pub pack_header-bound :
      (addr k : ℕ) → k < c.associativity → pack_header c addr (k * c.cache_line_size) < 256 ^ 8
  pack_header-bound addr k h = omega (
    arith,
    pack_header-fields c addr k (k * c.cache_line_size) (line_count k) (omega (arith, h, v.few)),
    header_mix-bound c addr k,
    h,
    v.few,
  )
