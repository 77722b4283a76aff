-- ===== src/Backing/Mmap/Bounds.antt =====
-- The page size, and the range that a release advises on.
use forge_alloc.Base.{
  ℕ, ◌+◌, ◌^◌, ◌≤◌, ◌<◌, ◌≡◌, ◌⊎◌, refl, inl, inr, arith, Bool, true, false, Bool-cases, ltb, ◌==◌,
  ◌&&◌,
}
use forge_alloc.Word.Defs.{is_power_of_two}
use forge_alloc.Word.Align.{IsAlign}
use forge_alloc.Core.Layout.Valid.{is_power_of_two-IsAlign}
use forge_alloc.Backing.Mmap.{Platform, System, MmapBacked, page_size, clamped}

and-right : (a b : Bool) → (a && b) ≡ true → b ≡ true
and-right true b h = h
and-right false b h = cc

-- Whatever the system reports, the page size is a power of two, from a cache that is empty or was filled by
-- an earlier call, and the cache keeps it.
pub page_size-IsAlign :
    (w cached reported : ℕ)
    → 12 < w
    → reported < 2 ^ w
    → (cached ≡ 0) ⊎ IsAlign w cached
    → IsAlign w (page_size w cached reported).0
      × ((page_size w cached reported).1 ≡ (page_size w cached reported).0)
unfolding page_size
page_size-IsAlign w cached reported wide word held = elim (Bool-cases (cached == 0)) [
  | inr kept ↦ elim held [
    | inl empty ↦ absurd (ground (arith, kept, empty))
    | inr al ↦ (rw kept al, rw kept refl)
  ]
  | inl empty ↦ elim (Bool-cases (ltb 0 reported && is_power_of_two w reported)) [
    | inl good ↦ (
      rw (empty, good)
          (is_power_of_two-IsAlign w reported word
            (and-right (ltb 0 reported) (is_power_of_two w reported) good)),
      rw empty refl,
    )
    | inr bad ↦
        (rw (empty, bad) (record { exponent = 12; fits = wide; power = refl }), rw empty refl)
  ]
]

module _ (platform : Platform) (w page einval : ℕ) {S : Type 0} (sys : System S) where
  -- The range that a release on Windows advises on is part of the range asked for, and of the committed
  -- bytes where it is not empty; it is all of the asked range where that is committed.
  pub clamped-within :
      (b : MmapBacked S) (ptr size : ℕ)
      → b.ptr ≤ ptr
      → b.committed < 2 ^ w
      → let n = clamped platform w page einval sys b ptr size in
        (n ≤ size)
        × (1 ≤ n → ptr + n ≤ b.ptr + b.committed)
        × (ptr + size ≤ b.ptr + b.committed → n ≡ size)
  unfolding clamped
  clamped-within b ptr size le small =
      (ground (arith, le, small), ground (arith, le, small), ground (arith, le, small))
