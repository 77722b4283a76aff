-- ===== src/ArenaPool/Runs.antt =====
-- Whole runs of a pool.
use forge_alloc.Base.{ℕ, ◌≡◌, refl, sym, subst, arith, Option, some}
use forge_alloc.Core.Range.{FixedRange}
use forge_alloc.Bump.{BumpArena}
use forge_alloc.Bump.Allocate.{IsValid}
use forge_alloc.ArenaPool.{
  ArenaPool, OsBacked, new, give_back, clear, release_idle, checkout, prewarm,
}
use forge_alloc.ArenaPool.Ready.{
  IsReady, Kept, Releases, Hands, give_back-Kept, checkout_from-Hands, released-IsReady,
}
use forge_alloc.ArenaPool.Prewarm.{prewarm-Filled}

module _ (w : ℕ) {B F : Type 0} (r : FixedRange B) (make : F → F × Option B) where
  -- What a caller may do: an arena that is given back is a valid one, at any cursor.
  pub data Step (p q : ArenaPool B F) : Type 0 where
    checks_out : q ≡ (checkout w r make p).0 → Step p q
    gives_back : (a : BumpArena B) → IsValid w r a → q ≡ give_back p a → Step p q
    prewarms : (n : ℕ) → q ≡ (prewarm w r make p n).0 → Step p q
    clears : q ≡ clear p → Step p q
    releases : (os : OsBacked B) → Releases r os → q ≡ release_idle os p → Step p q

  pub data Reach (p : ArenaPool B F) : ArenaPool B F → Type 0 where
    here : Reach p p
    next : {q s : ArenaPool B F} → Reach p q → Step q s → Reach p s

  checkout-Hands : (p : ArenaPool B F) → Kept w r p → Hands w r make (checkout w r make p)
  unfolding checkout
  checkout-Hands p k = checkout_from-Hands w r make p.idle p refl k

  Step-Kept : (p q : ArenaPool B F) → Step p q → Kept w r p → Kept w r q
  unfolding clear release_idle
  Step-Kept p q (Step.checks_out e) k = subst (Kept w r) (sym e) (checkout-Hands p k).0
  Step-Kept p q (Step.gives_back a v e) k = subst (Kept w r) (sym e) (give_back-Kept w r p a v k)
  Step-Kept p q (Step.prewarms n e) k =
      subst (Kept w r) (sym e) (prewarm-Filled w r make p n k).kept
  Step-Kept p q (Step.clears e) k =
      subst (Kept w r) (sym e) (record { ready = tt; within = omega arith })
  Step-Kept p q (Step.releases os h e) k =
      let (ready, size) = released-IsReady w r os p.idle h k.ready in
      subst (Kept w r) (sym e) (record { ready = ready; within = omega (arith, size, k.within) })

  Reach-Kept : {p q : ArenaPool B F} → Kept w r p → Reach p q → Kept w r q
  Reach-Kept k here = k
  Reach-Kept k (next {q} {s} path st) = Step-Kept q s st (Reach-Kept k path)

  -- After every run of checkouts, returns of valid arenas, prewarming, clearing and releases of pages that
  -- keep the regions, whatever the factory does, from a new pool: the idle arenas are valid, empty and no more
  -- than the cap, and an arena that a checkout hands out then is valid and empty.
  pub new-Reach-Kept :
      (cap : ℕ) (factory : F) (p : ArenaPool B F)
      → Reach (new cap factory) p
      → Kept w r p × ((a : BumpArena B) → (checkout w r make p).1 ≡ some a → IsReady w r a)
  unfolding new
  new-Reach-Kept cap factory p path =
      let k : Kept w r p = Reach-Kept (record { ready = tt; within = omega arith }) path in
      (k, (checkout-Hands p k).1)
