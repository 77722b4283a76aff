-- ===== src/Fallback/Tests.antt =====
-- Two inline buffers of 64 bytes, at 4096 and at 8192.
use forge_alloc.Base.{ℕ, ◌-◌, ◌^◌, ◌≡◌, ◌↔◌, refl, arith, some}
use forge_alloc.Core.Layout.{NonZeroLayout}
use forge_alloc.Backing.Inline.{InlineBacked, inline_range}
use forge_alloc.Fallback.{WithFallback, ranges_disjoint, try_new, corruption_events}
use forge_alloc.Fallback.Route.{Apart, try_new_iff}

abbrev low : InlineBacked
low = record { storage = 4096; capacity = 64; cursor = 0 }

abbrev high : InlineBacked
high = record { storage = 8192; capacity = 64; cursor = 0 }

abbrev router : WithFallback InlineBacked InlineBacked
router = record { primary = low; secondary = high }

abbrev bytes : NonZeroLayout
bytes = record { size = 16; align = 1 }

makes_router : try_new 64 inline_range inline_range low high ≡ some router
unfolding try_new ranges_disjoint
makes_router = refl

-- The counters saturate.
saturates :
    corruption_events (λ (p : ℕ). 2 ^ 64 - 1) (λ (s : ℕ). 3) (record { primary = 0; secondary = 0 })
    ≡ 2 ^ 64 - 1
unfolding corruption_events
saturates = refl

try_new_iff_example :
    (try_new 64 inline_range inline_range low high ≡ some router)
    ↔ Apart 64 inline_range inline_range low high
try_new_iff_example = try_new_iff 64 inline_range inline_range low high (omega arith) (omega arith)
