-- ===== src/ArenaPool/Prewarm.antt =====
-- The loop of `prewarm`, and whole runs of a pool.
use forge_alloc.Base.{
  ℕ, zero, suc, ◌+◌, ◌-◌, ◌^◌, ◌≤◌, ◌<◌, ◌≡◌, refl, sym, ap, subst, ◌∙◌, inl, inr, arith, true,
  Bool-cases, Option-cases, Option, none, some, ◌∷◌, length, ltb, min, if◌then◌else◌, ◌>>=◌,
}
use forge_alloc.Core.Range.{FixedRange}
use forge_alloc.Bump
use forge_alloc.Bump.{BumpArena}
use forge_alloc.ArenaPool.{ArenaPool, mint, fill, target, prewarm}
use forge_alloc.ArenaPool.Ready.{Kept, mint-IsReady}

-- A cap below the modulus does not see the saturation.
clamped : (cap a m : ℕ) → cap < m → min cap (if ltb a m then a else m - 1) ≡ min cap a
clamped cap a m h = elim (Bool-cases (ltb a m)) [
  | inl small ↦ rw small refl
  | inr large ↦ let le : m ≤ a = ground (arith, large) in rw large (omega (arith, h, le))
]

module _ (w : ℕ) {B F : Type 0} (r : FixedRange B) (make : F → F × Option B) where
  -- Every call of the factory yields a region of at least one byte that ends below the top of the address space.
  abbrev pub YieldsRegions : Type 0
  YieldsRegions =
      (f : F) → (b : B) × ((make f).1 ≡ some b) × (1 ≤ r.size b) × (r.base b + r.size b < 2 ^ w)

  mint_total :
      (p : ArenaPool B F) → YieldsRegions → (a : BumpArena B) × ((mint w r make p).1 ≡ some a)
  unfolding mint Bump.new
  mint_total p h =
      let (b, made, pos, top) = h p.factory in
      (
        record { backing = b; capacity = r.size b; cursor = 0 },
        ap (λ (t : Option B). t >>= λ b. Bump.new w r b) made ∙ ground (arith, pos, top),
      )

  -- A round that adds an arena.
  abbrev pub added_to : ArenaPool B F → BumpArena B → ArenaPool B F
  added_to p a = record (mint w r make p).0 { idle = a ∷ p.idle }

  fill-step :
      (fuel t : ℕ) (p : ArenaPool B F) (added : ℕ) (a : BumpArena B)
      → ltb (length p.idle) t ≡ true
      → (mint w r make p).1 ≡ some a
      → fill w r make (suc fuel) t p added ≡ fill w r make fuel t (added_to p a) (added + 1)
  unfolding fill mint
  fill-step fuel t p added a more got = ground (arith, more, got)

  -- What the loop leaves: the invariant, and on success the target and the number of new arenas.
  pub record Filled (t : ℕ) (p : ArenaPool B F) (added : ℕ) (x : ArenaPool B F × Option ℕ)
      : Type 0 where
    pub kept : Kept w r x.0
    pub cap : x.0.cap ≡ p.cap
    pub grows : length p.idle ≤ length x.0.idle
    pub success :
        (k : ℕ)
        → x.1 ≡ some k
        → (t ≤ length x.0.idle) × (length x.0.idle + added ≡ length p.idle + k)
    pub bounded : length p.idle ≤ t → length x.0.idle ≤ t

  minted_cap : (p : ArenaPool B F) → (mint w r make p).0.cap ≡ p.cap
  unfolding mint
  minted_cap p = refl

  minted_idle : (p : ArenaPool B F) → (mint w r make p).0.idle ≡ p.idle
  unfolding mint
  minted_idle p = refl

  minted-Kept : (p : ArenaPool B F) → Kept w r p → Kept w r (mint w r make p).0
  unfolding mint
  minted-Kept p k = record { ready = k.ready; within = k.within }

  fill-Filled :
      (fuel t : ℕ) (p : ArenaPool B F) (added : ℕ)
      → Kept w r p
      → t ≤ p.cap
      → Filled t p added (fill w r make fuel t p added)
  unfolding fill
  fill-Filled zero t p added k le = record {
    kept = k;
    cap = refl;
    grows = omega arith;
    success = λ n e. absurd (ground (arith, e));
    bounded = λ h. h;
  }
  fill-Filled (suc fuel) t p added k le = elim (Bool-cases (ltb (length p.idle) t)) [
    | inr done ↦
        let e : fill w r make (suc fuel) t p added ≡ (p, some added) = ground (arith, done) in
        subst (Filled t p added) (sym e) (record {
          kept = k;
          cap = refl;
          grows = omega arith;
          success = λ n same. (ground (arith, done), ground (arith, same));
          bounded = λ h. h;
        })
    | inl more ↦ elim (Option-cases (mint w r make p).1) [
      | inl failed ↦
          let e : fill w r make (suc fuel) t p added ≡ ((mint w r make p).0, none) =
            ground (arith, more, failed) in
          subst (Filled t p added) (sym e) (record {
            kept = minted-Kept p k;
            cap = minted_cap p;
            grows = omega (arith, ap length (minted_idle p));
            success = λ n same. absurd (ground (arith, same));
            bounded = λ h. omega (arith, h, ap length (minted_idle p));
          })
      | inr (a, got) ↦
          let less : length p.idle < t = ground (arith, more) in
          let same : length (added_to p a).idle ≡ length p.idle + 1 =
            omega (arith, ap length (minted_idle p)) in
          let ih : Filled t (added_to p a) (added + 1)
              (fill w r make fuel t (added_to p a) (added + 1)) =
            fill-Filled fuel t (added_to p a) (added + 1)
              (record {
                ready = (mint-IsReady w r make p a got, k.ready);
                within = omega (arith, same, less, le, minted_cap p);
              })
              (omega (arith, le, minted_cap p)) in
          subst (Filled t p added) (sym (fill-step fuel t p added a more got)) (record {
            kept = ih.kept;
            cap = ih.cap ∙ minted_cap p;
            grows = omega (arith, ih.grows, same);
            success = λ n e. ((ih.success n e).0, omega (arith, (ih.success n e).1, same));
            bounded = λ h. ih.bounded (omega (arith, same, less));
          })
    ]
  ]

  fill_total :
      (fuel t : ℕ) (p : ArenaPool B F) (added : ℕ)
      → YieldsRegions
      → t - length p.idle < fuel
      → (k : ℕ) × ((fill w r make fuel t p added).1 ≡ some k)
  unfolding fill
  fill_total zero t p added h enough = absurd (omega (arith, enough))
  fill_total (suc fuel) t p added h enough = elim (Bool-cases (ltb (length p.idle) t)) [
    | inr done ↦ (added, ground (arith, done))
    | inl more ↦
        let (a, got) = mint_total p h in
        let (k, e) =
          fill_total fuel t (added_to p a) (added + 1) h
            (ground (arith, more, enough, ap length (minted_idle p))) in
        (k, ap (λ (x : ArenaPool B F × Option ℕ). x.1) (fill-step fuel t p added a more got) ∙ e)
  ]

  -- What `prewarm` leaves of a pool in order, whatever the factory does: the idle arenas are valid, empty and
  -- within the cap, none was lost, and an answer is the number of new ones, of which there are then
  -- as many as the cap or the request allows.
  pub prewarm-Filled :
      (p : ArenaPool B F) (n : ℕ)
      → Kept w r p
      → Filled (target w r make p n) p 0 (prewarm w r make p n)
  unfolding prewarm
  prewarm-Filled p n k = fill-Filled (p.cap + 1) (target w r make p n) p 0 k (omega arith)

  -- With a factory whose every call yields a region of at least one byte that ends below the top of the
  -- address space, `prewarm` of a pool in order, with a cap that is a word, ends with an answer: the pool then holds as many idle arenas as were there and asked for, or as the cap allows, and the
  -- answer is how many of them are new.
  pub prewarm_total :
      (p : ArenaPool B F) (n : ℕ)
      → Kept w r p
      → p.cap < 2 ^ w
      → YieldsRegions
      → (k : ℕ) × ((prewarm w r make p n).1 ≡ some k)
        × (length (prewarm w r make p n).0.idle ≡ min p.cap (length p.idle + n))
        × (length p.idle + k ≡ min p.cap (length p.idle + n))
  unfolding prewarm
  prewarm_total p n k word h =
      let t : ℕ = target w r make p n in
      let same : t ≡ min p.cap (length p.idle + n) =
        clamped p.cap (length p.idle + n) (2 ^ w) word in
      let (new_ones, e) = fill_total (p.cap + 1) t p 0 h (omega arith) in
      let f : Filled t p 0 (fill w r make (p.cap + 1) t p 0) =
        fill-Filled (p.cap + 1) t p 0 k (omega arith) in
      let (reached, count) = f.success new_ones e in
      let held : length (fill w r make (p.cap + 1) t p 0).0.idle ≡ t =
        omega (arith, reached, f.bounded (omega (arith, same, k.within))) in
      (new_ones, e, held ∙ same, omega (arith, count, held, same))
