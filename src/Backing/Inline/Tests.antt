-- ===== src/Backing/Inline/Tests.antt =====
-- A buffer of 64 bytes at the address 4104.
use forge_alloc.Base.{◌≡◌, refl, none, some}
use forge_alloc.Word.Align.{align_up}
use forge_alloc.Core.Layout.{NonZeroLayout}
use forge_alloc.Cursor.{place}
use forge_alloc.Backing.Inline.{InlineBacked, allocate}

abbrev buffer : InlineBacked
buffer = record { storage = 4104; capacity = 64; cursor = 3 }

abbrev words : NonZeroLayout
words = record { size = 16; align = 16 }

allocates_words :
    allocate 64 buffer words
    ≡ (record buffer { cursor = 24 }, some (record { address = 4112; length = 16 }))
unfolding allocate place align_up
allocates_words = refl

-- The alignment of the storage is 16 at most.
refuses_wide : allocate 64 buffer (record { size = 16; align = 32 }) ≡ (buffer, none)
unfolding allocate
refuses_wide = refl
