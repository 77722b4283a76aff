-- ===== src/Backing/Mmap/Commit.antt =====
-- What a commit makes of the region, over a system that keeps its documented behaviour.
use forge_alloc.Base.{
  ℕ, ◌+◌, ◌-◌, ◌^◌, ◌≤◌, ◌<◌, ◌≡◌, ◌≢◌, ◌⊎◌, refl, sym, subst, inl, inr, arith, true, false,
  Bool-cases, Option, none, some, Option-cases, min, leb, ltb, ◌>>=◌,
}
use forge_alloc.Word.Defs.{checked_add}
use forge_alloc.Word.Align.{align_up, IsAlign, Rounds, align_up-Rounds}
use forge_alloc.Backing.Mmap.{
  Platform, MmapFlags, System, MmapBacked, unix, capture_os_error, commit_to, os_commit,
}

-- `backed s a` says that the address `a` has memory behind it. A mapping that is not lazy is backed, and on
-- Unix every mapping; a commit that is done backs its range; nothing takes the memory away that a
-- commit or advice does not name, and advice on a range keeps it.
pub record IsSystem (platform : Platform) (w : ℕ) {S : Type 0} (sys : System S)
    (backed : S → ℕ → Type 0) : Type 0 where
  pub map_inside :
      (s : S) (n : ℕ) (flags : MmapFlags) (p : ℕ) → (sys.map s n flags).1 ≡ some p → p + n < 2 ^ w
  pub map_backs :
      (s : S) (n : ℕ) (flags : MmapFlags) (p : ℕ)
      → (sys.map s n flags).1 ≡ some p
      → (platform ≡ unix) ⊎ (flags.lazy_commit ≡ false)
      → (a : ℕ) → p ≤ a
      → a < p + n
      → backed (sys.map s n flags).0 a
  pub commit_backs :
      (s : S) (p n : ℕ)
      → (sys.commit s p n).1 ≡ true
      → (a : ℕ) → p ≤ a
      → a < p + n
      → backed (sys.commit s p n).0 a
  pub commit_keeps : (s : S) (p n a : ℕ) → backed s a → backed (sys.commit s p n).0 a
  pub release_keeps : (s : S) (p n a : ℕ) → backed s a → backed (sys.release s p n).0 a

module _ (w page einval : ℕ) {S : Type 0} (sys : System S) (backed : S → ℕ → Type 0) where
  -- The cursor is behind the committed bytes, which have memory behind them and lie in the region.
  pub record IsValid (platform : Platform) (b : MmapBacked S) : Type 0 where
    pub inside : b.ptr + b.len < 2 ^ w
    pub used : b.cursor ≤ b.committed
    pub within : b.committed ≤ b.len
    pub whole : platform ≡ unix → b.committed ≡ b.len
    pub ready : (a : ℕ) → b.ptr ≤ a → a < b.ptr + b.committed → backed b.world.system a

  -- The region stays where it is and loses nothing.
  pub record Commits (platform : Platform) (b b' : MmapBacked S) : Type 0 where
    pub valid : IsValid platform b'
    pub ptr : b'.ptr ≡ b.ptr
    pub len : b'.len ≡ b.len
    pub cursor : b'.cursor ≡ b.cursor
    pub grows : b.committed ≤ b'.committed

  abbrev pub Reaches : Platform → MmapBacked S → ℕ → MmapBacked S × Option (Unit {0}) → Type 0
  Reaches platform b target out =
      Commits platform b out.0 × (out.1 ≢ none → target ≤ out.0.committed)

  module _ (platform : Platform) (laws : IsSystem platform w sys backed) where
    pub same-Commits : (b : MmapBacked S) → IsValid platform b → Commits platform b b
    same-Commits b v = record {
      valid = v;
      ptr = refl;
      len = refl;
      cursor = refl;
      grows = omega arith;
    }

    commit_to-Reaches :
        (b : MmapBacked S) (target : ℕ)
        → platform ≢ unix
        → target ≤ b.len
        → IsValid platform b
        → Reaches platform b target (commit_to platform w page einval sys b target)
    unfolding commit_to capture_os_error
    commit_to-Reaches b target lazy le v =
        let from : ℕ = b.ptr + b.committed in
        let n : ℕ = target - b.committed in
        let after : S = (sys.commit b.world.system from n).0 in
        elim (Bool-cases (leb target b.committed)) [
          | inl already ↦
              let e : commit_to platform w page einval sys b target ≡ (b, some tt) =
                ground (arith, already) in
              subst (Reaches platform b target) (sym e)
                (same-Commits b v, λ h. ground (arith, already))
          | inr more ↦ elim (Bool-cases (sys.commit b.world.system from n).1) [
            | inl done ↦
                let b' : MmapBacked S = record b {
                  world = record b.world { system = after };
                  committed = target;
                } in
                let e : commit_to platform w page einval sys b target ≡ (b', some tt) =
                  ground (arith, more, done) in
                subst (Reaches platform b target) (sym e) (
                  record {
                    valid = record {
                      inside = v.inside;
                      used = ground (arith, v.used, more);
                      within = le;
                      whole = λ u. absurd (lazy u);
                      ready = λ a lo hi. elim (Bool-cases (ltb a from)) [
                        | inl old ↦
                            laws.commit_keeps b.world.system from n a
                              (v.ready a lo (ground (arith, old)))
                        | inr new ↦
                            laws.commit_backs b.world.system from n done a (ground (arith, new))
                              (ground (arith, new, hi))
                      ];
                    };
                    ptr = refl;
                    len = refl;
                    cursor = refl;
                    grows = ground (arith, more);
                  },
                  λ h. omega arith,
                )
            | inr fails ↦
                let b' : MmapBacked S = record b {
                  world = capture_os_error platform w page einval sys after;
                } in
                let e : commit_to platform w page einval sys b target ≡ (b', none) =
                  ground (arith, more, fails) in
                subst (Reaches platform b target) (sym e) (
                  record {
                    valid = record {
                      inside = v.inside;
                      used = v.used;
                      within = v.within;
                      whole = v.whole;
                      ready =
                          λ a lo hi. laws.commit_keeps b.world.system from n a (v.ready a lo hi);
                    };
                    ptr = refl;
                    len = refl;
                    cursor = refl;
                    grows = omega arith;
                  },
                  λ h. absurd (h refl),
                )
          ]
        ]

  windows-lazy : Platform.windows ≢ unix
  windows-lazy e = cc

  -- Whatever range is asked for, and whether or not the system commits it, the region stays valid; a
  -- commit that succeeds has committed every byte of the range that lies in the region.
  pub os_commit-Reaches :
      (platform : Platform)
      → IsSystem platform w sys backed
      → IsAlign w page
      → (b : MmapBacked S) (offset n : ℕ) → IsValid platform b
      → Reaches platform b
          (min (offset + n) b.len)
          (os_commit platform w page einval sys b offset n)
  unfolding os_commit
  os_commit-Reaches Platform.unix laws al b offset n v =
      (same-Commits Platform.unix laws b v, λ h. omega (arith, v.whole refl))
  os_commit-Reaches Platform.windows laws al b offset n v =
      elim (Option-cases (checked_add w offset n >>= λ end. align_up w end page)) [
        | inl wraps ↦
            let e : os_commit Platform.windows w page einval sys b offset n ≡ (b, none) =
              ground (arith, wraps) in
            subst (Reaches Platform.windows b (min (offset + n) b.len)) (sym e)
              (same-Commits Platform.windows laws b v, λ h. absurd (h refl))
        | inr (end, at) ↦
            let r : Rounds (offset + n) page end =
              align_up-Rounds w (offset + n) page al (ground (arith, at)) in
            let (c, reaches) =
              commit_to-Reaches Platform.windows laws b (min end b.len) windows-lazy (omega arith)
                v in
            let e : os_commit Platform.windows w page einval sys b offset n
                ≡ commit_to Platform.windows w page einval sys b (min end b.len) =
              ground (arith, at) in
            subst (Reaches Platform.windows b (min (offset + n) b.len)) (sym e)
              (c, λ h. omega (arith, reaches h, r.above))
      ]
