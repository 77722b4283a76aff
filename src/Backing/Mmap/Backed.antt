-- ===== src/Backing/Mmap/Backed.antt =====
-- Any run of allocations, commits and page releases on a region, over a system that keeps its behaviour.
use forge_alloc.Base.{
  ℕ, ◌+◌, ◌^◌, ◌≤◌, ◌<◌, ◌≡◌, ◌≢◌, ◌⊎◌, refl, sym, ap, subst, inl, inr, arith, false, Bool-cases,
  Option, none, some, Option-cases, List, [], ◌∷◌, All, All-map, AllPairs, min, ◌==◌,
}
use forge_alloc.Word.Align.{align_up, IsAlign, IsAligned, Rounds, align_up-Rounds}
use forge_alloc.Core.Layout.{NonZeroLayout}
use forge_alloc.Core.Range.{Block}
use forge_alloc.Cursor.{place, Fits, place-Fits}
use forge_alloc.Bump.Steps.{Disjoint}
use forge_alloc.Backing.Mmap.{
  Platform, MmapFlags, System, World, MmapBacked, unix, capture_os_error, first_committed,
  with_flags, os_commit, allocate, os_release_pages, clamped, release_pages,
}
use forge_alloc.Backing.Mmap.Commit.{IsSystem, IsValid, Commits, same-Commits, os_commit-Reaches}

pub record State (S : Type 0) : Type 0 where
  pub region : MmapBacked S
  pub live : List Block

-- All of a new region is committed, or none of it.
first_committed-cases :
    (platform : Platform) (w page einval : ℕ) {S : Type 0} (sys : System S) (flags : MmapFlags)
    (len : ℕ)
    → ((first_committed platform w page einval sys flags len ≡ len)
        × ((platform ≡ unix) ⊎ (flags.lazy_commit ≡ false)))
      ⊎ ((first_committed platform w page einval sys flags len ≡ 0) × (platform ≢ unix))
unfolding first_committed
first_committed-cases Platform.unix w page einval sys flags len = inl (refl, inl refl)
first_committed-cases Platform.windows w page einval sys flags len =
    elim (Bool-cases flags.lazy_commit) [
      | inl lazy ↦ inr (ground (arith, lazy), λ e. cc)
      | inr eager ↦ inl (ground (arith, eager), inr eager)
    ]

-- What `release_pages` does: advice on some range, or nothing.
release_pages-cases :
    (platform : Platform) (w page einval : ℕ) {S : Type 0} (sys : System S) (b : MmapBacked S)
    (ptr n : ℕ)
    → ((m : ℕ) × (release_pages platform w page einval sys b ptr n
          ≡ os_release_pages platform w page einval sys b ptr m))
      ⊎ (release_pages platform w page einval sys b ptr n ≡ b)
unfolding release_pages
release_pages-cases Platform.unix w page einval sys b ptr n = inl (n, refl)
release_pages-cases Platform.windows w page einval sys b ptr n =
    elim (Bool-cases (clamped Platform.windows w page einval sys b ptr n == 0)) [
      | inl nothing ↦ inr (ground (arith, nothing))
      | inr some_bytes ↦
          inl (clamped Platform.windows w page einval sys b ptr n, ground (arith, some_bytes))
    ]

module _ (platform : Platform) (w page einval : ℕ) {S : Type 0} (sys : System S)
    (backed : S → ℕ → Type 0) where
  abbrev Valid : MmapBacked S → Type 0
  Valid = IsValid w page einval sys backed platform

  -- A block behind the old cursor that ends at the new one.
  pub record Issued (b : MmapBacked S) (l : NonZeroLayout) (b' : MmapBacked S) (got : Block)
      : Type 0 where
    pub valid : Valid b'
    pub ptr : b'.ptr ≡ b.ptr
    pub after : b.ptr + b.cursor ≤ got.address
    pub aligned : IsAligned got.address l.align
    pub length : got.length ≡ l.size
    pub ends : got.address + got.length ≡ b.ptr + b'.cursor

  pub data Step (s t : State S) : Type 0 where
    allocates :
        (l : NonZeroLayout) (b : Block)
        → IsAlign w l.align
        → allocate platform w page einval sys s.region l ≡ (t.region, some b)
        → t.live ≡ b ∷ s.live
        → Step s t
    fails :
        (l : NonZeroLayout)
        → IsAlign w l.align
        → allocate platform w page einval sys s.region l ≡ (t.region, none)
        → t.live ≡ s.live
        → Step s t
    commits :
        (offset n : ℕ)
        → t.region ≡ (os_commit platform w page einval sys s.region offset n).0
        → t.live ≡ s.live
        → Step s t
    releases :
        (ptr n : ℕ)
        → t.region ≡ release_pages platform w page einval sys s.region ptr n
        → t.live ≡ s.live
        → Step s t

  pub data Reach (s : State S) : State S → Type 0 where
    here : Reach s s
    next : {t u : State S} → Reach s t → Step t u → Reach s u

  -- A block lies between the start and the cursor.
  pub record Inside (b : MmapBacked S) (x : Block) : Type 0 where
    pub from : b.ptr ≤ x.address
    pub to : x.address + x.length ≤ b.ptr + b.cursor

  pub record Safe (s : State S) : Type 0 where
    pub valid : Valid s.region
    pub inside : All (Inside s.region) s.live
    pub apart : AllPairs Disjoint s.live

  -- The memory of a block: every byte has memory behind it.
  abbrev pub IsBacked : MmapBacked S → Block → Type 0
  IsBacked b x = (a : ℕ) → x.address ≤ a → a < x.address + x.length → backed b.world.system a

  module _ (laws : IsSystem platform w sys backed) (al : IsAlign w page) where
    abbrev Outcome : MmapBacked S → NonZeroLayout → MmapBacked S × Option Block → Type 0
    Outcome b l out =
        ((out.1 ≡ none) × Commits w page einval sys backed platform b out.0)
        ⊎ ((got : Block) × (out.1 ≡ some got) × Issued b l out.0 got)

    -- A refused block leaves the region as it was but for bytes that were committed; a block that is served
    -- stands on committed bytes.
    pub allocate-Outcome :
        (b : MmapBacked S) (l : NonZeroLayout)
        → Valid b
        → IsAlign w l.align
        → Outcome b l (allocate platform w page einval sys b l)
    unfolding allocate
    allocate-Outcome b l v la = elim (Option-cases (place w b.ptr b.cursor b.len l)) [
      | inl full ↦
          let e : allocate platform w page einval sys b l ≡ (b, none) = ground (arith, full) in
          subst (Outcome b l) (sym e)
            (inl (refl, same-Commits w page einval sys backed platform laws b v))
      | inr ((off, end), at) ↦
          let f : Fits b.ptr b.cursor b.len l off end =
            place-Fits w b.ptr b.cursor b.len l v.inside (omega (arith, v.used, v.within)) la at in
          let b' : MmapBacked S = (os_commit platform w page einval sys b off l.size).0 in
          let (c, reaches) =
            os_commit-Reaches w page einval sys backed platform laws al b off l.size v in
          elim (Option-cases (os_commit platform w page einval sys b off l.size).1) [
            | inl refused ↦
                let e : allocate platform w page einval sys b l ≡ (b', none) =
                  ground (arith, at, refused) in
                subst (Outcome b l) (sym e) (inl (refl, c))
            | inr (u, done) ↦
                let got : Block = record { address = b.ptr + off; length = l.size } in
                let e : allocate platform w page einval sys b l
                    ≡ (record b' { cursor = end }, some got) =
                  ground (arith, at, done) in
                let enough : min (off + l.size) b.len ≤ b'.committed =
                  reaches (λ no_answer. ground (arith, done, no_answer)) in
                subst (Outcome b l) (sym e) (
                  inr (
                    got,
                    refl,
                    record {
                      valid = record {
                        inside = c.valid.inside;
                        used = omega (arith, enough, f.ends, f.within);
                        within = c.valid.within;
                        whole = c.valid.whole;
                        ready = c.valid.ready;
                      };
                      ptr = c.ptr;
                      after = omega (arith, f.after);
                      aligned = f.aligned;
                      length = refl;
                      ends = omega (arith, f.ends);
                    },
                  ))
          ]
    ]

    -- A region that stays in place and does not move its cursor back keeps the blocks inside it.
    kept-Inside :
        (b b' : MmapBacked S) (live : List Block)
        → b'.ptr ≡ b.ptr
        → b.cursor ≤ b'.cursor
        → All (Inside b) live
        → All (Inside b') live
    kept-Inside b b' live same le h =
        All-map (Inside b) (Inside b') live
          (λ x i. record { from = omega (arith, i.from, same); to = omega (arith, i.to, same, le) })
          h

    Commits-Safe :
        (s t : State S)
        → Commits w page einval sys backed platform s.region t.region
        → t.live ≡ s.live
        → Safe s
        → Safe t
    Commits-Safe s t c live h = record {
      valid = c.valid;
      inside =
          rw live (kept-Inside s.region t.region s.live c.ptr (omega (arith, c.cursor)) h.inside);
      apart = rw live h.apart;
    }

    allocates-Safe :
        (s t : State S) (l : NonZeroLayout) (b : Block)
        → Issued s.region l t.region b
        → t.live ≡ b ∷ s.live
        → Safe s
        → Safe t
    allocates-Safe s t l b i live h = record {
      valid = i.valid;
      inside = rw live (
        record { from = omega (arith, i.after, i.ptr); to = omega (arith, i.ends, i.ptr) },
        kept-Inside s.region t.region s.live i.ptr (omega (arith, i.after, i.ends)) h.inside,
      );
      apart = rw live (
        All-map (Inside s.region) (Disjoint b) s.live (λ x j. inr (omega (arith, j.to, i.after)))
            h.inside,
        h.apart,
      );
    }

    released-Commits :
        (b : MmapBacked S) (ptr n : ℕ)
        → Valid b
        → Commits w page einval sys backed platform b
            (os_release_pages platform w page einval sys b ptr n)
    unfolding os_release_pages capture_os_error
    released-Commits b ptr n v =
        let after : S = (sys.release b.world.system ptr n).0 in
        let kept : (world : World S)
            → world.system ≡ after
            → Commits w page einval sys backed platform b (record b { world = world }) =
          λ world same. record {
            valid = record {
              inside = v.inside;
              used = v.used;
              within = v.within;
              whole = v.whole;
              ready =
                  λ a lo hi. rw same (laws.release_keeps b.world.system ptr n a (v.ready a lo hi));
            };
            ptr = refl;
            len = refl;
            cursor = refl;
            grows = omega arith;
          } in
        elim (Bool-cases (sys.release b.world.system ptr n).1) [
          | inl done ↦
              let e : os_release_pages platform w page einval sys b ptr n
                  ≡ record b { world = record b.world { system = after } } =
                ground (arith, done) in
              subst (Commits w page einval sys backed platform b) (sym e)
                (kept (record b.world { system = after }) refl)
          | inr refused ↦
              let world : World S = capture_os_error platform w page einval sys after in
              let e : os_release_pages platform w page einval sys b ptr n
                  ≡ record b { world = world } =
                ground (arith, refused) in
              subst (Commits w page einval sys backed platform b) (sym e) (kept world refl)
        ]

    Step-Safe : (s t : State S) → Step s t → Safe s → Safe t
    Step-Safe s t (Step.allocates l b la e live) h = elim (allocate-Outcome s.region l h.valid la) [
      | inl (refused, c) ↦ absurd (ground (arith, e, refused))
      | inr (got, served, i) ↦
          allocates-Safe s t l b
            (subst (λ (x : Block). Issued s.region l t.region x) (ground (arith, e, served))
              (subst (λ (x : MmapBacked S). Issued s.region l x got) (ap (λ x. x.0) e) i))
            live h
    ]
    Step-Safe s t (Step.fails l la e live) h = elim (allocate-Outcome s.region l h.valid la) [
      | inl (refused, c) ↦
          Commits-Safe s t
            (subst (Commits w page einval sys backed platform s.region) (ap (λ x. x.0) e) c) live h
      | inr (got, served, i) ↦ absurd (ground (arith, e, served))
    ]
    Step-Safe s t (Step.commits offset n e live) h =
        Commits-Safe s t
          (rw e
            (os_commit-Reaches w page einval sys backed platform laws al s.region offset n
              h.valid).0)
          live h
    Step-Safe s t (Step.releases ptr n e live) h =
        elim (release_pages-cases platform w page einval sys s.region ptr n) [
          | inl (m, same) ↦
              Commits-Safe s t (rw (e, same) (released-Commits s.region ptr m h.valid)) live h
          | inr same ↦
              Commits-Safe s t
                (rw (e, same)
                  (same-Commits w page einval sys backed platform laws s.region h.valid))
                live h
        ]

    Reach-Safe : {s t : State S} → Safe s → Reach s t → Safe t
    Reach-Safe h here = h
    Reach-Safe h (next {t} {u} path st) = Step-Safe t u st (Reach-Safe h path)

    -- A region that `with_flags` has mapped is valid.
    pub with_flags-IsValid :
        (e : World S) (size : ℕ) (flags : MmapFlags) (b : MmapBacked S)
        → (with_flags platform w page einval sys e size flags).1 ≡ some b
        → Valid b × (b.cursor ≡ 0) × (size ≤ b.len)
    unfolding with_flags
    with_flags-IsValid e size flags b made = elim (Option-cases (align_up w size page)) [
      | inl wraps ↦ absurd (ground (arith, made, wraps))
      | inr (len, at) ↦ elim (Option-cases (sys.map e.system len flags).1) [
        | inl refused ↦ absurd (ground (arith, made, at, refused))
        | inr (p, got) ↦
            let r : Rounds size page len = align_up-Rounds w size page al at in
            let s : S = (sys.map e.system len flags).0 in
            let same : b ≡ record {
              world = record e { system = s };
              ptr = p;
              len = len;
              cursor = 0;
              committed = first_committed platform w page einval sys flags len;
            } =
              ground (arith, made, at, got) in
            let inside : p + len < 2 ^ w = laws.map_inside e.system len flags p got in
            let committed : ℕ = first_committed platform w page einval sys flags len in
            let valid : Valid (record {
              world = record e { system = s };
              ptr = p;
              len = len;
              cursor = 0;
              committed = committed;
            }) =
              elim (first_committed-cases platform w page einval sys flags len) [
                | inl (all, eager) ↦ record {
                  inside = inside;
                  used = omega arith;
                  within = omega (arith, all);
                  whole = λ u. all;
                  ready = λ a lo hi.
                      laws.map_backs e.system len flags p got eager a lo (omega (arith, hi, all));
                }
                | inr (nothing, lazy) ↦ record {
                  inside = inside;
                  used = omega arith;
                  within = omega (arith, nothing);
                  whole = λ u. absurd (lazy u);
                  ready = λ a lo hi. absurd (omega (arith, lo, hi, nothing));
                }
              ] in
            rw same (valid, refl, r.above)
      ]
    ]

    Inside-IsBacked : (b : MmapBacked S) → Valid b → (x : Block) → Inside b x → IsBacked b x
    Inside-IsBacked b v x i a lo hi =
        v.ready a (omega (arith, i.from, lo)) (omega (arith, i.to, hi, v.used))

    -- After every run of allocations and commits that succeed or fail and of page releases, on Unix or on
    -- Windows, from a region that `with_flags` has mapped with any flags, over a system that keeps its
    -- documented behaviour: the blocks that were served are pairwise disjoint and lie in the region before
    -- the cursor, the cursor is within the committed bytes, and every byte of every block has memory
    -- behind it, also where the region was only reserved at first.
    pub with_flags-Reach-Safe :
        (e : World S) (size : ℕ) (flags : MmapFlags) (b : MmapBacked S) (t : State S)
        → (with_flags platform w page einval sys e size flags).1 ≡ some b
        → Reach (record { region = b; live = [] }) t
        → Safe t × All (IsBacked t.region) t.live
    with_flags-Reach-Safe e size flags b t made path =
        let h : Safe t =
          Reach-Safe
            (record { valid = (with_flags-IsValid e size flags b made).0; inside = tt; apart = tt })
            path in
        (
          h,
          All-map (Inside t.region) (IsBacked t.region) t.live (Inside-IsBacked t.region h.valid)
              h.inside,
        )
