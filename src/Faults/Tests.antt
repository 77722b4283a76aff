-- ===== src/Faults/Tests.antt =====
-- Single calls of the fault policies.
use forge_alloc.Base.{◌≡◌, refl, true}
use forge_alloc.Core.Layout.{NonZeroLayout}
use forge_alloc.Faults.{fail_every_nth, fail_on_size}

abbrev bytes : NonZeroLayout
bytes = record { size = 16; align = 1 }

-- The third of three calls fails.
fails_third : (fail_every_nth 64 (record { period = 3; count = 2 }) bytes).1 ≡ true
unfolding fail_every_nth
fails_third = refl

-- The threshold is inclusive.
fails_at_size : (fail_on_size (record { min_fail_bytes = 16 }) bytes).1 ≡ true
unfolding fail_on_size
fails_at_size = refl
