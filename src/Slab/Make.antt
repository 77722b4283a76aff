-- ===== src/Slab/Make.antt =====
-- What `with_protection` builds.
use native.Mathlib.Nat.{mul-mod_left, div-add-mod', mul_assoc, mul_comm, add-mod, zero-mod}
use forge_alloc.Base.{
  ℕ, ◌+◌, ◌-◌, ◌*◌, ◌/◌, ◌%◌, ◌^◌, ◌≤◌, ◌<◌, ◌≡◌, ◌⊎◌, refl, sym, subst, ap, ◌∙◌, arith, inl, inr,
  some, true, false, leb, Bool-cases, Option-cases, max,
}
use forge_alloc.Word.Power.{is_power_of_two_sound}
use forge_alloc.Word.Defs.{isize_max, is_power_of_two, checked_mul}
use forge_alloc.Word.Align.{IsAlign, IsAligned, IsAlign-lt, Rounds, align_up-Rounds, align_up-lt}
use forge_alloc.Core.Layout.{NonZeroLayout, TypeLayout, from_size_align}
use forge_alloc.Core.Layout.Valid
use forge_alloc.Core.Range.{FixedRange, Block}
use forge_alloc.Core.Allocator.{Allocator}
use forge_alloc.Slab.{
  Slab, slot_align, stride_of, shift_of, build, with_protection, base_ptr, slot_ptr,
}
use forge_alloc.Slab.Index.{IsShaped}

-- The contract of a backing that is an allocator over a region: a block is aligned, long enough, and
-- inside the region.
pub record Supplies (w : ℕ) {B : Type 0} (r : FixedRange B) (al : Allocator B) (b : B)
    : Type 0 where
  pub aligned :
      (l : NonZeroLayout) (got : Block)
      → IsAlign w l.align
      → (al.allocate b l).1 ≡ some got
      → IsAligned got.address l.align
  pub from :
      (l : NonZeroLayout) (got : Block)
      → IsAlign w l.align
      → (al.allocate b l).1 ≡ some got
      → r.base (al.allocate b l).0 ≤ got.address
  pub to :
      (l : NonZeroLayout) (got : Block)
      → IsAlign w l.align
      → (al.allocate b l).1 ≡ some got
      → got.address + l.size ≤ r.base (al.allocate b l).0 + r.size (al.allocate b l).0

slot_align-IsAlign :
    (w : ℕ) (t : TypeLayout) → 2 < w → IsAlign w t.align_of → IsAlign w (slot_align t)
slot_align-IsAlign w t h a = elim (Bool-cases (leb 4 t.align_of)) [
  | inl big ↦ record {
    exponent = a.exponent;
    fits = a.fits;
    power = omega (arith, a.power, leb_lem big);
  }
  | inr tiny ↦ record { exponent = 2; fits = h; power = omega (arith, not_leb_lem tiny) }
]
  where
    leb_lem : leb 4 t.align_of ≡ true → 4 ≤ t.align_of
    leb_lem e = ground arith

    not_leb_lem : leb 4 t.align_of ≡ false → t.align_of < 4
    not_leb_lem e = ground arith

-- A stride takes an aligned address to an aligned address.
stride-IsAligned : (n a s i : ℕ) → IsAligned a n → IsAligned s n → IsAligned (a + i * s) n
stride-IsAligned n a s i ha hs =
    let parts : s / n * n + s % n ≡ s = div-add-mod' s n in
    let multiple : i * s ≡ i * (s / n) * n =
      ap (λ (t : ℕ). i * t) (omega (arith, parts, hs)) ∙ sym (mul_assoc i (s / n) n) in
    add-mod a (i * s) n
    ∙ ap (λ (t : ℕ). (t + i * s % n) % n) ha
    ∙ ap (λ (t : ℕ). (0 + t) % n) (ap (λ (t : ℕ). t % n) multiple ∙ mul-mod_left (i * (s / n)) n)
    ∙ zero-mod n

shift_lem :
    (w stride : ℕ) → stride < 2 ^ w → (shift_of w stride ≡ 0) ⊎ (stride ≡ 2 ^ shift_of w stride)
unfolding shift_of
shift_lem w stride h = elim (Bool-cases (is_power_of_two w stride)) [
  | inl power ↦ inr (rw power (is_power_of_two_sound w stride h power).1)
  | inr other ↦ inl (rw other)
]

stride_of-Rounds :
    (w : ℕ) (t : TypeLayout) {stride : ℕ}
    → IsAlign w (slot_align t)
    → stride_of w t ≡ some stride
    → Rounds (max t.size_of 8) (slot_align t) stride × (stride < 2 ^ w)
unfolding stride_of
stride_of-Rounds w t a e = (
  align_up-Rounds w (max t.size_of 8) (slot_align t) a e,
  align_up-lt w (max t.size_of 8) (slot_align t) a e,
)

module _ (w : ℕ) {B M : Type 0} (r : FixedRange B) (al : Allocator B) (t : TypeLayout) where
  pub record Made (capacity : ℕ) (s : Slab B M) : Type 0 where
    pub shaped : IsShaped s
    pub slots : s.capacity ≡ capacity
    pub empty : (s.free_head ≡ 0) × (s.next_uncarved ≡ 0) × (s.corruption_events ≡ 0)
    pub holds : t.size_of ≤ s.block_stride
    pub total : s.capacity * s.block_stride ≤ isize_max w
    pub within :
        (i : ℕ)
        → i < s.capacity
        → (r.base s.backing ≤ slot_ptr r s i)
          × (slot_ptr r s i + s.block_stride ≤ r.base s.backing + r.size s.backing)
          × IsAligned (slot_ptr r s i) (slot_align t)

  build-Made :
      (capacity : ℕ) (backing : B) (mac : M) (stride : ℕ) (l : NonZeroLayout) (block : Block)
      {s : Slab B M}
      → stride < 2 ^ w
      → capacity < 2 ^ 32
      → Rounds (max t.size_of 8) (slot_align t) stride
      → capacity * stride ≤ isize_max w
      → r.base backing ≤ block.address
      → block.address + capacity * stride ≤ r.base backing + r.size backing
      → IsAligned block.address (slot_align t)
      → build w r al t capacity backing mac stride l block ≡ some s
      → Made capacity s
  unfolding build slot_ptr base_ptr
  build-Made capacity backing mac stride l block {s} hs hc rounds total from to at e =
      let made : s ≡ record {
        backing = backing;
        mac = mac;
        base_offset = block.address - r.base backing;
        free_head = 0;
        next_uncarved = 0;
        block_stride = stride;
        stride_shift = shift_of w stride;
        capacity = capacity;
        backing_layout = l;
        corruption_events = 0;
      } =
        ground (arith, e, from) in
      let start : r.base backing + (block.address - r.base backing) ≡ block.address =
        omega (arith, from) in
      subst (Made capacity) (sym made) (record {
        shaped = record {
          wide = omega (arith, rounds.above);
          shift = shift_lem w stride hs;
          small = hc;
        };
        slots = refl;
        empty = (refl, refl, refl);
        holds = omega (arith, rounds.above);
        total = total;
        within = λ i h. (
          omega arith,
          omega (arith, start, to, index_bound i capacity stride h),
          subst (λ (x : ℕ). IsAligned (x + i * stride) (slot_align t)) (sym start)
              (stride-IsAligned (slot_align t) block.address stride i at rounds.aligned),
        );
      })
    where
      index_bound : (i c k : ℕ) → i < c → i * k + k ≤ c * k
      index_bound i c k h = grind arith

  module _ (wide : 2 < w) (ta : IsAlign w t.align_of) where
    -- A slab that `with_protection` builds is empty, has the asked number of slots of at least the size
    -- of a value and of a link, all of them aligned and inside the region of the backing, a shift that
    -- agrees with its stride, and no more than `isize::MAX` bytes.
    pub with_protection-Made :
        (capacity : ℕ) (backing : B) (mac : M) {s : Slab B M}
        → Supplies w r al backing
        → with_protection w r al t capacity backing mac ≡ some s
        → Made capacity s
    unfolding with_protection
    with_protection-Made capacity backing mac {s} law e = elim (Option-cases (stride_of w t)) [
      | inl no_stride ↦ absurd (ground (arith, e, no_stride))
      | inr (stride, es) ↦ elim (Option-cases (checked_mul w stride capacity)) [
        | inl over ↦ absurd (ground (arith, e, es, over))
        | inr (total, et) ↦ elim (Option-cases (from_size_align w total (slot_align t))) [
          | inl no_layout ↦ absurd (ground (arith, e, es, et, no_layout))
          | inr (l, el) ↦ elim (Option-cases (al.allocate backing l).1) [
            | inl no_block ↦ absurd (ground (arith, e, es, et, el, no_block))
            | inr (block, eb) ↦
                let sa : IsAlign w (slot_align t) = slot_align-IsAlign w t wide ta in
                let (rounds, hs) = stride_of-Rounds w t sa es in
                let (lv, le) =
                  Valid.from_size_align-IsValid w total (slot_align t) (IsAlign-lt sa) el in
                let product : total ≡ capacity * stride =
                  ground (arith, et, mul_comm stride capacity) in
                let size : l.size ≡ capacity * stride =
                  ap (λ (x : NonZeroLayout). x.size) le ∙ product in
                let align : l.align ≡ slot_align t = ap (λ (x : NonZeroLayout). x.align) le in
                build-Made capacity (al.allocate backing l).0 mac stride l block hs
                  (ground (arith, e)) rounds (omega (arith, lv.bounded, size))
                  (law.from l block (subst (IsAlign w) (sym align) sa) eb)
                  (omega (arith, law.to l block (subst (IsAlign w) (sym align) sa) eb, size))
                  (subst (IsAligned block.address) align
                    (law.aligned l block (subst (IsAlign w) (sym align) sa) eb))
                  (ground (arith, e, es, et, el, eb))
          ]
        ]
      ]
    ]
