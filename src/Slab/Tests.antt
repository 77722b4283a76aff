-- ===== src/Slab/Tests.antt =====
-- A slab of four slots of sixteen bytes over an inline buffer, and attacks on it.
use forge_alloc.Base.{ℕ, ◌<◌, ◌≡◌, ◌↔◌, refl, arith, some, [], ◌∷◌, inr}
use forge_alloc.Word.Align.{IsAlign, align_up}
use forge_alloc.Core.Layout.{NonZeroLayout, TypeLayout, from_size_align}
use forge_alloc.Core.Range.{Block}
use forge_alloc.Core.Freelist.{Accepts, NoProtection, no_protection, unprotected}
use forge_alloc.Cursor.{place}
use forge_alloc.Backing.Inline
use forge_alloc.Backing.Inline.{InlineBacked, inline_range, inline_allocator}
use forge_alloc.Slab.{
  Slab, Links, stride_of, shift_of, build, with_protection, slot_ptr, slot_block, slot_index, carve,
  take_slot, allocate,
}
use forge_alloc.Slab.Index.{IsShaped, slot_index_iff}
use forge_alloc.Slab.Make.{Supplies}
use forge_alloc.Slab.Honest.{Honest, Served, allocate-Served}
use forge_alloc.Slab.Run.{State, Step, Reach, Sound, with_protection-Reach-Sound}
use forge_alloc.Slab.Attack.{Contained, allocate-Contained}

abbrev buffer : InlineBacked
buffer = record { storage = 4096; capacity = 128; cursor = 0 }

abbrev pair_type : TypeLayout
pair_type = record { size_of = 16; align_of = 8 }

abbrev region : NonZeroLayout
region = record { size = 64; align = 8 }

abbrev item : NonZeroLayout
item = record { size = 16; align = 8 }

abbrev slab : Slab InlineBacked NoProtection
slab = record {
  backing = record buffer { cursor = 64 };
  mac = no_protection;
  base_offset = 0;
  free_head = 0;
  next_uncarved = 0;
  block_stride = 16;
  stride_shift = 4;
  capacity = 4;
  backing_layout = region;
  corruption_events = 0;
}

buffer-IsValid : Inline.IsValid 64 buffer
buffer-IsValid = record { inside = omega arith; below = omega arith }

inline-Supplies :
    (w : ℕ) (b : InlineBacked) → Inline.IsValid w b → Supplies w inline_range (inline_allocator w) b
inline-Supplies w b v = record {
  aligned = λ l got al e. (Inline.inline-allocate w b l v al (pair l got e)).0;
  from = λ l got al e.
      let f = Inline.inline-allocate w b l v al (pair l got e) in omega (arith, f.2, f.5);
  to = λ l got al e.
      let f = Inline.inline-allocate w b l v al (pair l got e) in
      omega (arith, f.1, f.3, f.7.below);
}
  where
    pair :
        (l : NonZeroLayout) (got : Block)
        → (Inline.allocate w b l).1 ≡ some got
        → Inline.allocate w b l ≡ ((Inline.allocate w b l).0, some got)
    pair l got e = ground (arith, e)

buffer-Supplies : Supplies 64 inline_range (inline_allocator 64) buffer
buffer-Supplies = inline-Supplies 64 buffer buffer-IsValid

makes_slab :
    with_protection 64 inline_range (inline_allocator 64) pair_type 4 buffer no_protection
    ≡ some slab
unfolding with_protection stride_of align_up build shift_of from_size_align Inline.allocate place
makes_slab = refl

slab-IsShaped : IsShaped slab
slab-IsShaped = record { wide = omega arith; shift = inr refl; small = omega arith }

word-IsAlign : IsAlign 64 8
word-IsAlign = record { exponent = 3; fits = omega arith; power = refl }

unprotected-Accepts : (key : NoProtection) → Accepts unprotected key
unprotected-Accepts key next_idx nonce = refl

-- Slot 2 of the slab at 4096.
slot_index_iff_example :
    (slot_index inline_range slab 4128 ≡ some 2) ↔ ((2 < 4) × (4128 ≡ slot_ptr inline_range slab 2))
slot_index_iff_example = slot_index_iff inline_range slab slab-IsShaped 4128 2

-- Two slots are carved; the first was freed.
abbrev one_free : Slab InlineBacked NoProtection
one_free = record slab { free_head = 1; next_uncarved = 2 }

abbrev zero_links : Links
zero_links i = record { next_idx = 0; mac = 0 }

one_free-IsShaped : IsShaped one_free
one_free-IsShaped = record { wide = omega arith; shift = inr refl; small = omega arith }

one_free-Honest : Honest inline_range unprotected one_free zero_links (0 ∷ []) (1 ∷ [])
one_free-Honest = record {
  shaped = one_free-IsShaped;
  accepts = unprotected-Accepts no_protection;
  linked = (refl, refl, refl);
  below = (omega arith, (omega arith, tt));
  apart = ((ground arith, tt), (tt, tt));
  count = refl;
  carved = omega arith;
}

allocate-Served_example :
    Served inline_range unprotected one_free zero_links
      (1 ∷ [])
      (allocate inline_range unprotected 64 pair_type one_free zero_links item)
allocate-Served_example =
    allocate-Served inline_range unprotected 64 pair_type one_free zero_links item (0 ∷ []) (1 ∷ [])
      (omega arith) (omega arith) one_free-Honest

abbrev one_live : State InlineBacked NoProtection
one_live = record { slab = record slab { next_uncarved = 1 }; links = zero_links; live = 0 ∷ [] }

carves_first :
    allocate inline_range unprotected 64 pair_type slab zero_links item
    ≡ (one_live.slab, some (slot_block inline_range unprotected slab 0))
unfolding allocate take_slot carve slot_block
carves_first = refl

reaches_one :
    Reach 64 inline_range unprotected pair_type
      (record { slab = slab; links = zero_links; live = [] })
      one_live
reaches_one =
    Reach.next Reach.here (Step.allocates item 0 (omega arith) (omega arith) carves_first refl refl)

with_protection-Reach-Sound_example : Sound 64 inline_range unprotected pair_type one_live
with_protection-Reach-Sound_example =
    with_protection-Reach-Sound 64 inline_range unprotected pair_type (inline_allocator 64) 4 buffer
      no_protection slab zero_links (omega arith) word-IsAlign buffer-Supplies unprotected-Accepts
      makes_slab reaches_one

-- A dangling write through the freed slot put a wild index into its link.
abbrev forged : Links
forged i = record { next_idx = 4294967295; mac = 7 }

allocate-Contained_example :
    Contained inline_range unprotected one_free
      (allocate inline_range unprotected 64 pair_type one_free forged item)
allocate-Contained_example =
    allocate-Contained inline_range unprotected 64 pair_type one_free forged item
      (record { shaped = one_free-IsShaped; head = omega arith; carved = omega arith })
