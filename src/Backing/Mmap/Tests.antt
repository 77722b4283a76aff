-- ===== src/Backing/Mmap/Tests.antt =====
-- A system that maps every region at 65536 and keeps, for each address, whether memory is behind it.
use forge_alloc.Base.{
  ℕ, ◌+◌, ◌≡◌, refl, arith, inl, inr, Bool, true, false, none, some, [], ◌∷◌, All, leb, ltb, ◌&&◌,
  ◌||◌, not, if◌then◌else◌,
}
use forge_alloc.Word.Align.{align_up}
use forge_alloc.Core.Layout.{NonZeroLayout}
use forge_alloc.Core.Range.{Block}
use forge_alloc.Cursor.{place}
use forge_alloc.Backing.Mmap.{
  Platform, MmapFlags, no_flags, System, World, MmapBacked, with_flags, allocate,
}
use forge_alloc.Backing.Mmap.Commit.{IsSystem}
use forge_alloc.Backing.Mmap.Backed.{Step, Reach, Safe, IsBacked, with_flags-Reach-Safe}

abbrev Pages : Type 0
Pages = ℕ → Bool

within : ℕ → ℕ → ℕ → Bool
within p n a = leb p a && ltb a (p + n)

abbrev paged : System Pages
paged = record {
  last_os_error = λ s. some 8;
  map = λ s n flags. (
    λ a. (not flags.lazy_commit && within 65536 n a) || s a,
    if ltb n 1000000 then some 65536 else none,
  );
  commit = λ s p n. (λ a. within p n a || s a, true);
  release = λ s p n. (s, true);
  unmap = λ s p n. (s, true);
}

abbrev HasPage : Pages → ℕ → Type 0
HasPage s a = s a ≡ true

paged-IsSystem : IsSystem Platform.windows 64 paged HasPage
unfolding within
paged-IsSystem = record {
  map_inside = λ s n flags p e. ground (arith, e);
  map_backs = λ s n flags p e eager a lo hi. elim eager [
    | inl u ↦ cc
    | inr kept ↦ ground (arith, e, kept, lo, hi)
  ];
  commit_backs = λ s p n done a lo hi. ground (arith, lo, hi);
  commit_keeps = λ s p n a h. ground (arith, h);
  release_keeps = λ s p n a h. h;
}

-- Ten thousand bytes, reserved only: three pages.
abbrev lazy_flags : MmapFlags
lazy_flags = record no_flags { lazy_commit = true }

abbrev at_first : World Pages
at_first = record { system = λ a. false; last_error = none }

abbrev region : MmapBacked Pages
region = record {
  world = record at_first { system = (paged.map at_first.system 12288 lazy_flags).0 };
  ptr = 65536;
  len = 12288;
  cursor = 0;
  committed = 0;
}

maps_three_pages :
    (with_flags Platform.windows 64 4096 22 paged at_first 10000 lazy_flags).1 ≡ some region
unfolding with_flags align_up
maps_three_pages = refl

abbrev words : NonZeroLayout
words = record { size = 5000; align = 16 }

abbrev served : Block
served = record { address = 65536; length = 5000 }

-- A block of 5000 bytes commits two pages.
abbrev after_words : MmapBacked Pages
after_words = (allocate Platform.windows 64 4096 22 paged region words).0

serves_words : allocate Platform.windows 64 4096 22 paged region words ≡ (after_words, some served)
unfolding allocate place align_up
serves_words = refl

commits_two_pages : (after_words.cursor ≡ 5000) × (after_words.committed ≡ 8192)
unfolding allocate place align_up
commits_two_pages = (refl, refl)

refuses_nothing : (with_flags Platform.unix 64 4096 22 paged at_first 0 no_flags).1 ≡ none
unfolding with_flags
refuses_nothing = refl

with_flags-Reach-Safe_example :
    Safe Platform.windows 64 4096 22 paged HasPage
      (record { region = after_words; live = served ∷ [] })
    × All (IsBacked Platform.windows 64 4096 22 paged HasPage after_words) (served ∷ [])
with_flags-Reach-Safe_example =
    with_flags-Reach-Safe Platform.windows 64 4096 22 paged HasPage paged-IsSystem
      (record { exponent = 12; fits = omega arith; power = refl }) at_first 10000 lazy_flags region
      (record { region = after_words; live = served ∷ [] }) maps_three_pages
      (Reach.next Reach.here (
        Step.allocates words served (record { exponent = 4; fits = omega arith; power = refl })
          serves_words refl))
