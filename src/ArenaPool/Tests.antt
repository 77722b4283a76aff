-- ===== src/ArenaPool/Tests.antt =====
-- A pool of at most two arenas over inline buffers of 64 bytes.
use forge_alloc.Base.{ℕ, ◌+◌, ◌≡◌, refl, arith, Option, some, [], length, min}
use forge_alloc.Backing.Inline.{InlineBacked, inline_range}
use forge_alloc.Bump
use forge_alloc.Bump.{BumpArena, reset}
use forge_alloc.Bump.Allocate.{IsValid}
use forge_alloc.ArenaPool.{ArenaPool, new, give_back, mint, checkout, prewarm}
use forge_alloc.ArenaPool.Ready.{IsReady, Kept}
use forge_alloc.ArenaPool.Prewarm.{prewarm_total}
use forge_alloc.ArenaPool.Runs.{Step, Reach, new-Reach-Kept}

abbrev buffer : InlineBacked
buffer = record { storage = 4096; capacity = 64; cursor = 0 }

-- Every buffer stands at 4096, and the state counts them.
abbrev make : ℕ → ℕ × Option InlineBacked
make n = (n + 1, some buffer)

abbrev pool : ArenaPool InlineBacked ℕ
pool = record { factory = 0; idle = []; cap = 2 }

abbrev used : BumpArena InlineBacked
used = record { backing = buffer; capacity = 64; cursor = 24 }

used-IsValid : IsValid 64 inline_range used
used-IsValid = record { covers = refl; inside = omega arith; below = omega arith }

pool-Kept : Kept 64 inline_range pool
pool-Kept = record { ready = tt; within = omega arith }

-- Three are asked for and two fit.
prewarms_two : (prewarm 64 inline_range make pool 3).1 ≡ some 2
unfolding prewarm mint Bump.new
prewarms_two = refl

prewarm_total_example :
    (k : ℕ) × ((prewarm 64 inline_range make pool 3).1 ≡ some k)
    × (length (prewarm 64 inline_range make pool 3).0.idle ≡ min 2 (0 + 3))
    × (0 + k ≡ min 2 (0 + 3))
prewarm_total_example =
    prewarm_total 64 inline_range make pool 3 pool-Kept (omega arith)
      (λ f. (buffer, refl, omega arith, omega arith))

returned : Reach 64 inline_range make (new 2 0) (give_back pool used)
unfolding new
returned = Reach.next Reach.here (Step.gives_back used used-IsValid refl)

new-Reach-Kept_example :
    Kept 64 inline_range (give_back pool used)
    × ((a : BumpArena InlineBacked)
        → (checkout 64 inline_range make (give_back pool used)).1 ≡ some a
        → IsReady 64 inline_range a)
new-Reach-Kept_example = new-Reach-Kept 64 inline_range make 2 0 (give_back pool used) returned
