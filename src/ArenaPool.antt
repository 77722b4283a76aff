-- ===== src/ArenaPool.antt =====
-- crates/forge-alloc/src/layout/arena_pool.rs: `ArenaPool<B, F>`. The factory is a function on a state of
-- its own, which fails with `none`; the vector of idle arenas is a list, the last one pushed first.
pub mod Ready
pub mod Prewarm
pub mod Runs
mod Tests
use forge_alloc.Base.{
  ℕ, zero, suc, ◌+◌, true, false, Option, none, some, List, [], ◌∷◌, map, length, ltb, min,
  if◌then◌else◌, ◌>>=◌,
}
use forge_alloc.Word.Defs.{saturating_add}
use forge_alloc.Core.Range.{FixedRange}
use forge_alloc.Bump
use forge_alloc.Bump.{BumpArena, reset}

pub record ArenaPool (B F : Type 0) : Type 0 where
  pub factory : F
  pub idle : List (BumpArena B)
  pub cap : ℕ

module _ {B F : Type 0} where
  unfoldable pub new : ℕ → F → ArenaPool B F
  new cap factory = record { factory = factory; idle = []; cap = cap }

  unfoldable pub idle_count : ArenaPool B F → ℕ
  idle_count p = length p.idle

  unfoldable pub give_back : ArenaPool B F → BumpArena B → ArenaPool B F
  give_back p arena =
      if ltb (length p.idle) p.cap then record p { idle = reset arena ∷ p.idle } else p

  unfoldable pub clear : ArenaPool B F → ArenaPool B F
  clear p = record p { idle = [] }

-- The part of `trait OsBacked` that the pool uses. A release of pages may change the backing.
pub record OsBacked (B : Type 0) : Type 0 where
  pub base_ptr : B → ℕ
  pub region_size : B → ℕ
  pub release_pages : B → ℕ → ℕ → B

-- The whole region of an arena is released.
unfoldable pub release_arena : {B : Type 0} → OsBacked B → BumpArena B → BumpArena B
release_arena os a = record a {
  backing = os.release_pages a.backing (os.base_ptr a.backing) (os.region_size a.backing);
}

unfoldable pub release_idle : {B F : Type 0} → OsBacked B → ArenaPool B F → ArenaPool B F
unfolding release_arena
release_idle os p = record p { idle = map (release_arena os) p.idle }

module _ (w : ℕ) {B F : Type 0} (r : FixedRange B) (make : F → F × Option B) where
  -- `BumpArena::new((self.factory)()?)`
  unfoldable pub mint : ArenaPool B F → ArenaPool B F × Option (BumpArena B)
  mint p =
      let (f, backing) = make p.factory in
      (record p { factory = f }, backing >>= λ b. Bump.new w r b)

  -- The arena from the front of the idle ones, or a new one.
  unfoldable pub checkout_from :
      List (BumpArena B) → ArenaPool B F → ArenaPool B F × Option (BumpArena B)
  checkout_from [] p = mint p
  checkout_from (arena ∷ rest) p = (record p { idle = rest }, some arena)

  unfoldable pub checkout : ArenaPool B F → ArenaPool B F × Option (BumpArena B)
  unfolding checkout_from
  checkout p = checkout_from p.idle p

  -- The loop of `prewarm` on fuel: `none` is the error of the factory, or that the fuel ran out.
  unfoldable pub fill : ℕ → ℕ → ArenaPool B F → ℕ → ArenaPool B F × Option ℕ
  unfolding mint
  fill zero target p added = (p, none)
  fill (suc fuel) target p added = elim (ltb (length p.idle) target) [
    | false ↦ (p, some added)
    | true ↦
        let (p', got) = mint p in
        elim got [
          | none ↦ (p', none)
          | some arena ↦ fill fuel target (record p' { idle = arena ∷ p'.idle }) (added + 1)
        ]
  ]

  -- The target: no more than the cap.
  abbrev pub target : ArenaPool B F → ℕ → ℕ
  target p n = min p.cap (saturating_add w (length p.idle) n)

  -- Each round adds one arena, so a round more than the cap is enough.
  unfoldable pub prewarm : ArenaPool B F → ℕ → ArenaPool B F × Option ℕ
  unfolding fill
  prewarm p n = fill (p.cap + 1) (target p n) p 0
