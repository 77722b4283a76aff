-- ===== src/CacheJitter/Place.antt =====
-- What is drawn for a block, and where it goes inside the block of the inner allocator.
use Prim.Native.Nat.{bit_xor}
use native.Mathlib.Nat.{
  mul_comm, mul_assoc, add-mul, mul-mod_left, div-add-mod', mul-lt-mul_of_pos_right,
}
use forge_alloc.Base.{
  ℕ, ◌+◌, ◌-◌, ◌*◌, ◌/◌, ◌%◌, ◌^◌, ◌≤◌, ◌<◌, ◌≡◌, refl, sym, ap, ◌∙◌, inl, inr, arith, Bool-cases,
  some, ltb, leb, ◌==◌, if◌then◌else◌,
}
use forge_alloc.Word.Defs.{is_power_of_two, trailing_zeros}
use forge_alloc.Word.Power.{two-pow-lt, is_power_of_two_sound}
use forge_alloc.Word.Fields.{bit_xor-bound}
use forge_alloc.Word.Align.{IsAlign, IsAligned, two-pow-split}
use forge_alloc.Core.Layout.{NonZeroLayout, from_size_align, new}
use forge_alloc.CacheJitter.{
  CacheJitter, with_params, derive_key, next_rng, next_displacement, inner_layout_for,
}
use forge_alloc.CacheJitter.Header.{IsValid}

-- `with_params` accepts only parameters that are in order.
pub with_params-IsValid :
    (w : ℕ) {S : Type 0} (inner : S) (line ways seed : ℕ) {c : CacheJitter S}
    → line < 2 ^ w
    → seed < 2 ^ 64
    → with_params w inner line ways seed ≡ some c
    → IsValid w c
unfolding with_params
with_params-IsValid w inner line ways seed {c} word small e =
    elim (Bool-cases (is_power_of_two w line)) [
      | inr odd ↦ absurd (ground (arith, e, odd))
      | inl p ↦
          let (narrow, power) = is_power_of_two_sound w line word p in
          elim (Bool-cases (ltb (line * ways) (2 ^ w))) [
            | inr large ↦ absurd (ground (arith, e, p, large))
            | inl fits ↦
                let range : (8 ≤ line) × (1 ≤ ways) × (ways < 2 ^ 16) = (
                  ground (arith, e, p, fits),
                  ground (arith, e, p, fits),
                  ground (arith, e, p, fits),
                ) in
                let same : c ≡ record {
                  inner = inner;
                  cache_line_size = line;
                  associativity = ways;
                  line_shift = trailing_zeros w line;
                  mac_key = derive_key (if seed == 0 then 11400714819323198485 else seed);
                  rng = if seed == 0 then 11400714819323198485 else seed;
                } =
                  ground (arith, e, p, fits) in
                rw same (record {
                  power = power;
                  narrow = narrow;
                  line = range.0;
                  ways = range.1;
                  few = range.2;
                  product = ground (arith, fits);
                  state = ground (arith, small);
                })
          ]
    ]

module _ {S : Type 0} where
  next_rng-bound : (c : CacheJitter S) → c.rng < 2 ^ 64 → (next_rng c).1 < 2 ^ 64
  unfolding next_rng
  next_rng-bound c h =
      let x : ℕ = bit_xor c.rng ((c.rng * 2 ^ 13) % 2 ^ 64) in
      let bx : x < 2 ^ 64 = bit_xor-bound 64 c.rng _ h (omega arith) in
      let y : ℕ = bit_xor x (x / 2 ^ 7) in
      let by : y < 2 ^ 64 = bit_xor-bound 64 x _ bx (omega (arith, bx)) in
      bit_xor-bound 64 y _ by (omega arith)

  -- What is drawn is a number of lines below the number of ways; only the generator moves.
  pub next_displacement-lines :
      (w : ℕ) (c : CacheJitter S)
      → IsValid w c
      → (k r : ℕ) × (k < c.associativity)
        × (r < 2 ^ 64)
        × (next_displacement c ≡ (record c { rng = r }, k * c.cache_line_size))
  unfolding next_displacement next_rng
  next_displacement-lines w c v =
      let x : ℕ = (next_rng c).1 in
      let bx : x < 2 ^ 64 = next_rng-bound c v.state in
      let below : x * c.associativity < c.associativity * 2 ^ 64 = omega (
        arith,
        mul-lt-mul_of_pos_right {k = c.associativity} bx v.ways,
        mul_comm (2 ^ 64) c.associativity,
      ) in
      (x * c.associativity / 2 ^ 64, x, omega (arith, below), bx, refl)

-- The layout that is asked of the inner allocator.
pub inner_layout_for-layout :
    (w : ℕ) (l : NonZeroLayout) (line prefix : ℕ) {il : NonZeroLayout}
    → inner_layout_for w l line prefix ≡ some (some il)
    → (il.size ≡ l.size + prefix) × (il.align ≡ line) × (l.align ≤ line)
unfolding inner_layout_for from_size_align new
inner_layout_for-layout w l line prefix {il} e =
    (ground (arith, e), ground (arith, e), ground (arith, e))

-- A number of lines behind an aligned address is aligned, to a line and to less.
pub line-IsAligned :
    (w shift line align address k : ℕ)
    → line ≡ 2 ^ shift
    → IsAlign w align
    → align ≤ line
    → IsAligned address line
    → IsAligned (address + (line + k * line)) align
line-IsAligned w shift line align address k power al le at =
    let e : ℕ = al.exponent in
    let u : ℕ = 2 ^ (shift - e) in
    let within : e ≤ shift = elim (Bool-cases (leb e shift)) [
      | inl yes_le ↦ ground (arith, yes_le)
      | inr more ↦
          absurd (omega (arith, two-pow-lt shift e (ground (arith, more)), al.power, power, le))
    ] in
    let n : ℕ = address / line + (1 + k) in
    let whole : address + (line + k * line) ≡ n * line = omega (
      arith,
      div-add-mod' address line,
      at,
      add-mul (address / line) (1 + k) line,
      add-mul 1 k line,
    ) in
    let split : line ≡ u * align =
      power ∙ two-pow-split e shift within ∙ ap (λ (t : ℕ). u * t) (sym al.power) in
    let parts : address + (line + k * line) ≡ n * u * align =
      whole ∙ ap (λ (t : ℕ). n * t) split ∙ sym (mul_assoc n u align) in
    rw parts (mul-mod_left (n * u) align)
