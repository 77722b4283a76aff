-- ===== src/GuardPage/Live.antt =====
-- Any run of allocations and frees on a region with guard pages.
use forge_alloc.Base.{
  ℕ, ◌+◌, ◌^◌, ◌≤◌, ◌<◌, ◌≡◌, refl, sym, ap, subst, ◌∙◌, inl, inr, arith, none, some, Option-cases,
  List, [], ◌∷◌, ◌++◌, All, All-map, All-middle, AllPairs, AllPairs-middle,
}
use forge_alloc.Word.Align.{IsAlign, IsAligned}
use forge_alloc.Core.Layout.{NonZeroLayout}
use forge_alloc.Core.Range.{Block}
use forge_alloc.Cursor.{place, Fits, place-Fits}
use forge_alloc.Bump.Steps.{Disjoint, Disjoint-flip}
use forge_alloc.GuardPage.{Guardable, GuardPage, new, allocate, deallocate}
use forge_alloc.GuardPage.Install.{IsGuardable, Guards, new_iff}

pub record State (I : Type 0) : Type 0 where
  pub page : GuardPage I
  pub live : List Block

module _ (w : ℕ) {I : Type 0} where
  pub data Step (s t : State I) : Type 0 where
    allocates :
        (l : NonZeroLayout) (b : Block)
        → IsAlign w l.align
        → allocate w s.page l ≡ (t.page, some b)
        → t.live ≡ b ∷ s.live
        → Step s t
    fails : (l : NonZeroLayout) → allocate w s.page l ≡ (t.page, none) → t.live ≡ s.live → Step s t
    frees :
        (before : List Block) (old : Block) (after : List Block) (l : NonZeroLayout)
        → t.page ≡ deallocate s.page old.address l
        → s.live ≡ before ++ old ∷ after
        → t.live ≡ before ++ after
        → Step s t

  pub data Reach (s : State I) : State I → Type 0 where
    here : Reach s s
    next : {t u : State I} → Reach s t → Step t u → Reach s u

  -- A block before the cursor, and inside the usable range.
  pub record Inside (g : GuardPage I) (x : Block) : Type 0 where
    pub from : g.base ≤ x.address
    pub to : x.address + x.length ≤ g.base + g.cursor

  -- The wrapper `g` with its cursor somewhere in the usable range.
  pub record Safe (g : GuardPage I) (s : State I) : Type 0 where
    pub same : s.page ≡ record g { cursor = s.page.cursor }
    pub used : s.page.cursor ≤ g.usable_size
    pub inside : All (Inside s.page) s.live
    pub apart : AllPairs Disjoint s.live

  -- A block from the old cursor on, up to the new one.
  record Issued (g g' : GuardPage I) (l : NonZeroLayout) (b : Block) : Type 0 where
    same : g' ≡ record g { cursor = g'.cursor }
    after : g.base + g.cursor ≤ b.address
    ends : b.address + b.length ≡ g.base + g'.cursor
    used : g'.cursor ≤ g.usable_size

  allocate-Issued :
      (g g' : GuardPage I) (l : NonZeroLayout) (b : Block)
      → g.base + g.usable_size < 2 ^ w
      → g.cursor ≤ g.usable_size
      → IsAlign w l.align
      → allocate w g l ≡ (g', some b)
      → Issued g g' l b
  unfolding allocate
  allocate-Issued g g' l b top used al e =
      elim (Option-cases (place w g.base g.cursor g.usable_size l)) [
        | inl full ↦ absurd (ground (arith, e, full))
        | inr ((off, end), at) ↦
            let f : Fits g.base g.cursor g.usable_size l off end =
              place-Fits w g.base g.cursor g.usable_size l top used al at in
            let moved : record g { cursor = end } ≡ g' = ground (arith, e, at) in
            let got : record { address = g.base + off; length = l.size } ≡ b =
              ground (arith, e, at) in
            subst (λ (x : GuardPage I). Issued g x l b) moved
              (subst (λ (x : Block). Issued g (record g { cursor = end }) l x) got
                (record {
                  same = refl;
                  after = omega (arith, f.after);
                  ends = omega (arith, f.ends);
                  used = f.within;
                }))
      ]

  allocate-none : (g g' : GuardPage I) (l : NonZeroLayout) → allocate w g l ≡ (g', none) → g ≡ g'
  unfolding allocate
  allocate-none g g' l e = elim (Option-cases (place w g.base g.cursor g.usable_size l)) [
    | inl full ↦ ground (arith, e, full)
    | inr ((off, end), at) ↦ absurd (ground (arith, e, at))
  ]

  kept-Inside :
      (g g' : GuardPage I) (live : List Block)
      → g'.base ≡ g.base
      → g.cursor ≤ g'.cursor
      → All (Inside g) live
      → All (Inside g') live
  kept-Inside g g' live same le h =
      All-map (Inside g) (Inside g') live
        (λ x i. record { from = omega (arith, i.from, same); to = omega (arith, i.to, same, le) }) h

  allocates-Safe :
      (g : GuardPage I) (s t : State I) (l : NonZeroLayout) (b : Block)
      → Issued s.page t.page l b
      → t.live ≡ b ∷ s.live
      → Safe g s
      → Safe g t
  allocates-Safe g s t l b i live h =
      let base : t.page.base ≡ s.page.base = ap (λ x. x.base) i.same in
      record {
        same = i.same ∙ ap (λ (x : GuardPage I). record x { cursor = t.page.cursor }) h.same;
        used = omega (arith, i.used, ap (λ x. x.usable_size) h.same);
        inside = rw live (
          record { from = omega (arith, i.after, base); to = omega (arith, i.ends, base) },
          kept-Inside s.page t.page s.live base (omega (arith, i.after, i.ends)) h.inside,
        );
        apart = rw live (
          All-map (Inside s.page) (Disjoint b) s.live (λ x j. inr (omega (arith, j.to, i.after)))
              h.inside,
          h.apart,
        );
      }

  same-Safe :
      (g : GuardPage I) (s t : State I)
      → s.page ≡ t.page
      → All (Inside s.page) t.live
      → AllPairs Disjoint t.live
      → Safe g s
      → Safe g t
  same-Safe g s t same inside apart h = record {
    same = subst (λ (x : GuardPage I). x ≡ record g { cursor = x.cursor }) same h.same;
    used = subst (λ (x : GuardPage I). x.cursor ≤ g.usable_size) same h.used;
    inside = subst (λ (x : GuardPage I). All (Inside x) t.live) same inside;
    apart = apart;
  }

  Step-Safe :
      (g : GuardPage I) (s t : State I)
      → g.base + g.usable_size < 2 ^ w
      → Step s t
      → Safe g s
      → Safe g t
  unfolding deallocate
  Step-Safe g s t top (Step.allocates l b al e live) h =
      let base : s.page.base ≡ g.base = ap (λ x. x.base) h.same in
      let usable : s.page.usable_size ≡ g.usable_size = ap (λ x. x.usable_size) h.same in
      allocates-Safe g s t l b
        (allocate-Issued s.page t.page l b (omega (arith, top, base, usable))
          (omega (arith, h.used, usable)) al e)
        live h
  Step-Safe g s t top (Step.fails l e live) h =
      same-Safe g s t (allocate-none s.page t.page l e) (rw live h.inside) (rw live h.apart) h
  Step-Safe g s t top (Step.frees before old after l e live live') h =
      let (was, others) =
        All-middle (Inside s.page) before old after (subst (All (Inside s.page)) live h.inside) in
      let (apart, rest) =
        AllPairs-middle Disjoint Disjoint-flip before old after
          (subst (AllPairs Disjoint) live h.apart) in
      same-Safe g s t (sym e) (rw live' others) (rw live' rest) h

  Reach-Safe :
      (g : GuardPage I) {s t : State I}
      → g.base + g.usable_size < 2 ^ w
      → Reach s t
      → Safe g s
      → Safe g t
  Reach-Safe g top Reach.here h = h
  Reach-Safe g top (Reach.next {t} {u} run step) h =
      Step-Safe g t u top step (Reach-Safe g top run h)

module _ (w : ℕ) {I : Type 0} (os : Guardable I) (os_page : ℕ) (closed : I → ℕ → Type 0) where
  -- What holds of the blocks of a region `i` with guard pages of `page` bytes.
  pub record Guarded (i : I) (page : ℕ) (s : State I) : Type 0 where
    pub apart : AllPairs Disjoint s.live
    pub between :
        All
          (λ x.
            (os.base_ptr i + page ≤ x.address)
            × (x.address + x.length + page ≤ os.base_ptr i + os.region_size i))
          s.live
    pub head : (a : ℕ) → os.base_ptr i ≤ a → a < os.base_ptr i + page → closed s.page.inner a
    pub tail :
        (a : ℕ)
        → os.base_ptr i + os.region_size i ≤ a + page
        → a < os.base_ptr i + os.region_size i
        → closed s.page.inner a
    pub usable :
        IsAligned page os_page
        → ((a : ℕ) → ¬ (closed i a))
        → All
            (λ x. (a : ℕ) → x.address ≤ a → a < x.address + x.length → ¬ (closed s.page.inner a))
            s.live

  Safe-Guarded :
      (i : I) (page : ℕ) (g : GuardPage I) (s : State I)
      → Guards os os_page closed i page g
      → Safe w g s
      → Guarded i page s
  Safe-Guarded i page g s gs h =
      let base : s.page.base ≡ g.base = ap (λ x. x.base) h.same in
      let inner : g.inner ≡ s.page.inner = sym (ap (λ x. x.inner) h.same) in
      record {
        apart = h.apart;
        between =
            All-map (Inside w s.page)
              (λ x.
                (os.base_ptr i + page ≤ x.address)
                × (x.address + x.length + page ≤ os.base_ptr i + os.region_size i))
              s.live
              (λ x j. (
                omega (arith, j.from, base, gs.base),
                omega (arith, j.to, base, h.used, gs.usable),
              ))
              h.inside;
        head = λ a lo hi.
            subst (λ (x : I). closed x a) inner (gs.head a lo (omega (arith, hi, gs.base)));
        tail = λ a lo hi.
            subst (λ (x : I). closed x a) inner (gs.tail a (omega (arith, lo, gs.usable)) hi);
        usable = λ whole clear.
            All-map (Inside w s.page)
              (λ x. (a : ℕ) → x.address ≤ a → a < x.address + x.length → ¬ (closed s.page.inner a))
              s.live
              (λ x j a lo hi shut. clear a (
                gs.spared whole a (omega (arith, lo, j.from, base))
                  (omega (arith, hi, j.to, base, h.used))
                  (subst (λ (y : I). closed y a) (sym inner) shut)))
              h.inside;
      }

  -- After every run of allocations that succeed or fail and of frees, from a region inside the
  -- address space that `new` has given guard pages, over a system that keeps its documented behaviour: the
  -- blocks that are live are pairwise disjoint and lie between the guard pages, every byte of both guard
  -- pages faults, and where the page is a multiple of the system's page and no byte of the region
  -- faulted before, no byte of a block faults.
  pub new-Reach-Guarded :
      IsGuardable os os_page closed
      → (i : I) (page : ℕ) (g : GuardPage I) (s : State I) → page < 2 ^ w
      → os.base_ptr i + os.region_size i < 2 ^ w
      → (new w os i page).1 ≡ some g
      → Reach w (record { page = g; live = [] }) s
      → Guarded i page s
  new-Reach-Guarded laws i page g s word top made run =
      let (fresh, gs) =
        (new_iff w os os_page closed laws i page word (omega (arith, top))).1 g made in
      Safe-Guarded i page g s gs (
        Reach-Safe w g (omega (arith, top, gs.usable)) run (record {
          same = ap (λ (c : ℕ). record g { cursor = c }) refl;
          used = omega (arith, fresh);
          inside = tt;
          apart = tt;
        }))
