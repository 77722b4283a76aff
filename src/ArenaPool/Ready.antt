-- ===== src/ArenaPool/Ready.antt =====
-- The invariant of a pool, over any run of its operations.
use forge_alloc.Base.{
  ℕ, suc, ◌≤◌, ◌≡◌, refl, sym, ap, subst, ◌∙◌, inl, inr, arith, Bool-cases, Option, some, List, [],
  ◌∷◌, map, length, All, ltb, >>=-eq-some,
}
use forge_alloc.Core.Range.{FixedRange}
use forge_alloc.Bump
use forge_alloc.Bump.{BumpArena, reset}
use forge_alloc.Bump.Allocate.{IsValid, new-IsValid}
use forge_alloc.ArenaPool.{ArenaPool, new, OsBacked, release_arena, give_back, mint, checkout_from}

-- A release of pages keeps the region of a backing.
pub record Releases {B : Type 0} (r : FixedRange B) (os : OsBacked B) : Type 0 where
  pub base : (b : B) (address len : ℕ) → r.base (os.release_pages b address len) ≡ r.base b
  pub size : (b : B) (address len : ℕ) → r.size (os.release_pages b address len) ≡ r.size b

module _ (w : ℕ) {B : Type 0} (r : FixedRange B) where
  -- An arena is valid and empty.
  abbrev pub IsReady : BumpArena B → Type 0
  IsReady a = IsValid w r a × (a.cursor ≡ 0)

  pub reset-IsReady : (a : BumpArena B) → IsValid w r a → IsReady (reset a)
  unfolding reset
  reset-IsReady a v = (record { covers = v.covers; inside = v.inside; below = omega arith }, refl)

  release_arena-IsReady :
      (os : OsBacked B) (a : BumpArena B) → Releases r os → IsReady a → IsReady (release_arena os a)
  unfolding release_arena
  release_arena-IsReady os a h (v, e) =
      let base : r.base (release_arena os a).backing ≡ r.base a.backing =
        h.base a.backing (os.base_ptr a.backing) (os.region_size a.backing) in
      let size : r.size (release_arena os a).backing ≡ r.size a.backing =
        h.size a.backing (os.base_ptr a.backing) (os.region_size a.backing) in
      (
        record {
          covers = v.covers ∙ sym size;
          inside = omega (arith, v.inside, base);
          below = v.below;
        },
        e,
      )

  pub released-IsReady :
      (os : OsBacked B) (xs : List (BumpArena B))
      → Releases r os
      → All IsReady xs
      → All IsReady (map (release_arena os) xs) × (length (map (release_arena os) xs) ≡ length xs)
  released-IsReady os [] h k = (tt, refl)
  released-IsReady os (x ∷ xs) h k =
      let (ready, size) = released-IsReady os xs h k.1 in
      ((release_arena-IsReady os x h k.0, ready), ap suc size)

module _ (w : ℕ) {B F : Type 0} (r : FixedRange B) where
  -- Every idle arena is valid and empty, and there are no more than the cap.
  pub record Kept (p : ArenaPool B F) : Type 0 where
    pub ready : All (IsReady w r) p.idle
    pub within : length p.idle ≤ p.cap

  pub give_back-Kept :
      (p : ArenaPool B F) (a : BumpArena B) → IsValid w r a → Kept p → Kept (give_back p a)
  unfolding give_back
  give_back-Kept p a v k = elim (Bool-cases (ltb (length p.idle) p.cap)) [
    | inl room ↦
        let e : give_back p a ≡ record p { idle = reset a ∷ p.idle } = ground (arith, room) in
        subst Kept (sym e)
          (record { ready = (reset-IsReady w r a v, k.ready); within = ground (arith, room) })
    | inr full ↦ let e : give_back p a ≡ p = ground (arith, full) in subst Kept (sym e) k
  ]

  module _ (make : F → F × Option B) where
    pub mint-IsReady :
        (p : ArenaPool B F) (a : BumpArena B) → (mint w r make p).1 ≡ some a → IsReady w r a
    unfolding mint
    mint-IsReady p a e =
        let (b, made, new) = >>=-eq-some (make p.factory).1 (λ b. Bump.new w r b) e in
        new-IsValid w r b new

    -- What a pool operation leaves and hands out.
    abbrev pub Hands : ArenaPool B F × Option (BumpArena B) → Type 0
    Hands x = Kept x.0 × ((a : BumpArena B) → x.1 ≡ some a → IsReady w r a)

    pub checkout_from-Hands :
        (xs : List (BumpArena B)) (p : ArenaPool B F)
        → p.idle ≡ xs
        → Kept p
        → Hands (checkout_from w r make xs p)
    unfolding checkout_from mint
    checkout_from-Hands [] p e k = (record { ready = k.ready; within = k.within }, mint-IsReady p)
    checkout_from-Hands (x ∷ xs) p e k =
        let ready : All (IsReady w r) (x ∷ xs) = subst (All (IsReady w r)) e k.ready in
        (
          record { ready = ready.1; within = omega (arith, k.within, ap length e) },
          λ a same. subst (IsReady w r) (cc) ready.0,
        )
