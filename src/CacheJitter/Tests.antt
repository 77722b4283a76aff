-- ===== src/CacheJitter/Tests.antt =====
-- Lines of 64 bytes and eight ways, over an allocator that serves one block after the other and remembers
-- the last address that it was given back.
use forge_alloc.Base.{ℕ, ◌+◌, ◌-◌, ◌*◌, ◌<◌, ◌≡◌, refl, arith, Option, none, some}
use forge_alloc.Word.Defs.{is_power_of_two}
use forge_alloc.Core.Layout.{NonZeroLayout}
use forge_alloc.Core.Memory.{Memory, write}
use forge_alloc.Core.Range.{Block}
use forge_alloc.Core.Allocator.{Allocator}
use forge_alloc.CacheJitter.{
  CacheJitter, with_params, jitter_prefix, inner_layout_for, set_inner, allocate, deallocate,
}
use forge_alloc.CacheJitter.Header.{IsValid}
use forge_alloc.CacheJitter.Recover.{Jittered, allocate-Jittered, deallocate-Confined}

abbrev endless : Allocator (ℕ × ℕ)
endless = record {
  allocate = λ s l. ((s.0 + l.size, s.1), some (record { address = s.0; length = l.size }));
  deallocate = λ s ptr l. (s.0, ptr);
}

abbrev jitter : CacheJitter (ℕ × ℕ)
jitter = record {
  inner = (65536, 0);
  cache_line_size = 64;
  associativity = 8;
  line_shift = 6;
  mac_key = 1311768467463790320;
  rng = 11400714819323198485;
}

abbrev words : NonZeroLayout
words = record { size = 32; align = 16 }

abbrev larger : NonZeroLayout
larger = record { size = 544; align = 64 }

abbrev served : Block
served = record { address = 65536; length = 544 }

zeros : Memory
zeros a = 0

refuses_odd_line : with_params 64 jitter.inner 48 8 7 ≡ none
unfolding with_params is_power_of_two
refuses_odd_line = refl

fits : inner_layout_for 64 words 64 (jitter_prefix jitter) ≡ some (some larger)
unfolding inner_layout_for jitter_prefix
fits = refl

jitter-IsValid : IsValid 64 jitter
jitter-IsValid = record {
  power = refl;
  narrow = omega arith;
  line = omega arith;
  ways = omega arith;
  few = omega arith;
  product = omega arith;
  state = omega arith;
}

-- A header of zeros does not verify.
zeros_panic : deallocate 64 endless jitter zeros 65600 words ≡ none
unfolding deallocate zeros
zeros_panic = refl

allocate-Jittered_example :
    (k : ℕ) × Jittered 64 endless jitter words larger served k
      (allocate 64 endless jitter zeros words)
allocate-Jittered_example =
    allocate-Jittered 64 endless jitter zeros words larger served jitter-IsValid fits refl

abbrev handed_out : CacheJitter (ℕ × ℕ) × Memory × Option Block
handed_out = allocate 64 endless jitter zeros words

abbrev ptr_of : Option Block → ℕ
ptr_of none = 0
ptr_of (some b) = b.address

abbrev given_back : CacheJitter (ℕ × ℕ)
given_back = set_inner 64 endless handed_out.0 ((65536 + 544, 65536))

frees_the_inner_block :
    deallocate 64 endless handed_out.0 handed_out.1 (ptr_of handed_out.2) words ≡ some given_back
unfolding allocate deallocate write zeros
frees_the_inner_block = refl

handed_out-IsValid : IsValid 64 handed_out.0
unfolding allocate
handed_out-IsValid = record {
  power = refl;
  narrow = omega arith;
  line = omega arith;
  ways = omega arith;
  few = omega arith;
  product = omega arith;
  state = omega arith;
}

fits_again :
    inner_layout_for 64 words handed_out.0.cache_line_size (jitter_prefix handed_out.0)
    ≡ some (some larger)
unfolding inner_layout_for jitter_prefix allocate
fits_again = refl

deallocate-Confined_example :
    (k : ℕ) × (k < handed_out.0.associativity)
    × (given_back ≡ record handed_out.0 {
      inner =
          endless.deallocate handed_out.0.inner
            (ptr_of handed_out.2
              - (handed_out.0.cache_line_size + k * handed_out.0.cache_line_size))
            larger;
    })
deallocate-Confined_example =
    deallocate-Confined 64 endless handed_out.0 handed_out.1 (ptr_of handed_out.2) words larger
      given_back handed_out-IsValid fits_again frees_the_inner_block
