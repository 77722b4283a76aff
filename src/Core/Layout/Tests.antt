-- ===== src/Core/Layout/Tests.antt =====
-- Runs of the layout constructors at 64 bits.
use forge_alloc.Base.{◌-◌, ◌^◌, ◌≡◌, refl, none, some}
use forge_alloc.Core.Layout.{
  NonZeroLayout, new, from_size_align, pad_to_align, array_of, for_type, array,
}

abbrev thirteen : NonZeroLayout
thirteen = record { size = 13; align = 8 }

rejects :
    (from_size_align 64 0 8 ≡ none)
    × (from_size_align 64 16 3 ≡ none)
    × (from_size_align 64 (2 ^ 63 - 8) 8 ≡ some (record { size = 2 ^ 63 - 8; align = 8 }))
    × (from_size_align 64 (2 ^ 63 - 7) 8 ≡ none)
unfolding from_size_align
rejects = (refl, refl, refl, refl)

pads : pad_to_align 64 thirteen ≡ record { size = 16; align = 8 }
unfolding pad_to_align
pads = refl

arrays :
    (array 64 (record { size_of = 24; align_of = 8 }) 3 ≡ some (record { size = 72; align = 8 }))
    × (array 64 (record { size_of = 8; align_of = 8 }) (2 ^ 64 - 1) ≡ none)
    × (array 64 (record { size_of = 8; align_of = 8 }) 0 ≡ none)
unfolding array array_of for_type pad_to_align new
arrays = (refl, refl, refl)
