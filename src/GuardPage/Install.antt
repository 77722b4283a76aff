-- ===== src/GuardPage/Install.antt =====
-- `GuardPage::new`: when it succeeds, and what the two guard pages are then.
use forge_alloc.Base.{
  ℕ, ◌+◌, ◌-◌, ◌*◌, ◌%◌, ◌^◌, ◌≤◌, ◌<◌, ◌≡◌, ◌≢◌, ◌↔◌, ◌⊎◌, refl, sym, ap, subst, ◌∙◌, inl, inr,
  arith, bit_and, true, Bool-cases, Option, none, some, Option-cases,
}
use native.Mathlib.Nat.{
  dvd_trans, dvd-add, dvd-sub, dvd_refl, dvd_of_mod-eq-zero, mod-eq-zero_of_dvd,
}
use forge_alloc.Word.Defs.{is_power_of_two}
use forge_alloc.Word.Bits.{bit_and_mask}
use forge_alloc.Word.Align.{IsAlign, IsAligned, IsAlign-pos}
use forge_alloc.Core.Layout.Valid.{is_power_of_two-IsAlign, IsAlign-is_power_of_two}
use forge_alloc.Backing.Protect.{no_access}
use forge_alloc.GuardPage.{
  Guardable, GuardPage, is_clear, check_region, protect_page, install_guards, new,
}

-- The region that `GuardPage::new` accepts.
pub record Roomy (w : ℕ) {I : Type 0} (os : Guardable I) (i : I) (page : ℕ) : Type 0 where
  pub power : IsAlign w page
  pub room : 2 * page + 1 ≤ os.region_size i
  pub base_aligned : IsAligned (os.base_ptr i) page
  pub size_aligned : IsAligned (os.region_size i) page

masked_iff : (w page x : ℕ) → IsAlign w page → bit_and x (page - 1) ≡ x % page
masked_iff w page x a = rw a.power (bit_and_mask a.exponent x)

module _ (w : ℕ) {I : Type 0} (os : Guardable I) where
  check_region-Roomy :
      (i : I) (page : ℕ) → page < 2 ^ w → check_region w os i page ≡ some tt → Roomy w os i page
  unfolding check_region
  check_region-Roomy i page word e = elim (Bool-cases (is_power_of_two w page)) [
    | inr odd ↦ absurd (ground (arith, e, odd))
    | inl power ↦
        let a : IsAlign w page = is_power_of_two-IsAlign w page word power in
        record {
          power = a;
          room = ground (arith, e, power);
          base_aligned = sym (masked_iff w page (os.base_ptr i) a) ∙ ground (arith, e, power);
          size_aligned = sym (masked_iff w page (os.region_size i) a) ∙ ground (arith, e, power);
        }
  ]

  Roomy-check_region :
      (i : I) (page : ℕ)
      → os.region_size i < 2 ^ w
      → Roomy w os i page
      → check_region w os i page ≡ some tt
  unfolding check_region
  Roomy-check_region i page word r =
      let power : is_power_of_two w page ≡ true = IsAlign-is_power_of_two r.power in
      let pos : 1 ≤ page = IsAlign-pos r.power in
      let b : bit_and (os.base_ptr i) (page - 1) ≡ 0 =
        masked_iff w page (os.base_ptr i) r.power ∙ r.base_aligned in
      let s : bit_and (os.region_size i) (page - 1) ≡ 0 =
        masked_iff w page (os.region_size i) r.power ∙ r.size_aligned in
      ground (arith, power, pos, b, s, r.room, word)

-- What the operating system and `trait OsBacked` document, where `closed i a` says that an access to the
-- byte `a` faults: the region stays where it is; a byte of a range that was protected with no
-- access and recorded no error is closed; a closed byte stays so; and a range of whole pages of the system
-- closes nothing outside itself.
pub record IsGuardable {I : Type 0} (os : Guardable I) (os_page : ℕ) (closed : I → ℕ → Type 0)
    : Type 0 where
  pub base_kept : (i : I) (ptr n : ℕ) → os.base_ptr (os.protect i ptr n no_access) ≡ os.base_ptr i
  pub base_cleared : (i : I) → os.base_ptr (os.clear_last_os_error i) ≡ os.base_ptr i
  pub cleared : (i : I) → os.last_os_error (os.clear_last_os_error i) ≡ none
  pub clear_keeps : (i : I) (a : ℕ) → closed (os.clear_last_os_error i) a → closed i a
  pub closes :
      (i : I) (ptr n : ℕ)
      → os.last_os_error i ≡ none
      → os.last_os_error (os.protect i ptr n no_access) ≡ none
      → (a : ℕ) → ptr ≤ a
      → a < ptr + n
      → closed (os.protect i ptr n no_access) a
  pub stays : (i : I) (ptr n a : ℕ) → closed i a → closed (os.protect i ptr n no_access) a
  pub spares :
      (i : I) (ptr n : ℕ)
      → IsAligned ptr os_page
      → IsAligned n os_page
      → (a : ℕ) → (a < ptr) ⊎ (ptr + n ≤ a)
      → closed (os.protect i ptr n no_access) a
      → closed i a

-- The state of the region after both guard pages, and after the first.
abbrev pub headed : {I : Type 0} → Guardable I → I → ℕ → I
headed os i page = os.protect (os.clear_last_os_error i) (os.base_ptr i) page no_access

abbrev pub guarded : {I : Type 0} → Guardable I → I → ℕ → I
guarded os i page =
    let h = headed os i page in
    os.protect h (os.base_ptr h + (os.region_size i - page)) page no_access

tail-IsAligned :
    (p base size page : ℕ)
    → IsAligned page p
    → IsAligned base page
    → IsAligned size page
    → IsAligned (base + (size - page)) p
tail-IsAligned p base size page hp hb hs = mod-eq-zero_of_dvd p (
    dvd_trans p (dvd_of_mod-eq-zero p hp) (
      dvd-add page (dvd_of_mod-eq-zero page hb)
        (dvd-sub page (dvd_of_mod-eq-zero page hs) (dvd_refl page))))

is_clear_lem : (o : Option ℕ) → is_clear o ≡ true → o ≡ none
unfolding is_clear
is_clear_lem none e = refl
is_clear_lem (some code) e = cc

is_clear-none : {o : Option ℕ} → o ≡ none → is_clear o ≡ true
unfolding is_clear
is_clear-none e = rw e refl

-- The wrapper over a region: both guard pages fault, and what is usable lies between them.
pub record Guards {I : Type 0} (os : Guardable I) (os_page : ℕ) (closed : I → ℕ → Type 0) (i : I)
    (page : ℕ) (g : GuardPage I) : Type 0 where
  pub base : g.base ≡ os.base_ptr i + page
  pub usable : g.base + g.usable_size + page ≡ os.base_ptr i + os.region_size i
  pub nonempty : 1 ≤ g.usable_size
  pub head : (a : ℕ) → os.base_ptr i ≤ a → a < g.base → closed g.inner a
  pub tail :
      (a : ℕ) → g.base + g.usable_size ≤ a → a < os.base_ptr i + os.region_size i → closed g.inner a
  pub spared :
      IsAligned page os_page
      → (a : ℕ) → g.base ≤ a
      → a < g.base + g.usable_size
      → closed g.inner a
      → closed i a

module _ (w : ℕ) {I : Type 0} (os : Guardable I) (os_page : ℕ) (closed : I → ℕ → Type 0)
    (laws : IsGuardable os os_page closed) where
  -- The wrapper that `new` answers where it succeeds.
  abbrev made : I → ℕ → GuardPage I
  made i page = record {
    inner = guarded os i page;
    page_size = page;
    base = os.base_ptr (guarded os i page) + page;
    usable_size = os.region_size i - 2 * page;
    cursor = 0;
  }

  made-Guards :
      (i : I) (page : ℕ)
      → Roomy w os i page
      → os.last_os_error (headed os i page) ≡ none
      → os.last_os_error (guarded os i page) ≡ none
      → Guards os os_page closed i page (made i page)
  made-Guards i page r ok ok' =
      let c : I = os.clear_last_os_error i in
      let h : I = headed os i page in
      let at : os.base_ptr h ≡ os.base_ptr i =
        laws.base_kept c (os.base_ptr i) page ∙ laws.base_cleared i in
      let tail : ℕ = os.base_ptr h + (os.region_size i - page) in
      let same : os.base_ptr (guarded os i page) ≡ os.base_ptr i =
        laws.base_kept h tail page ∙ at in
      let room : 2 * page + 1 ≤ os.region_size i = r.room in
      record {
        base = omega (arith, same);
        usable = omega (arith, same, room);
        nonempty = omega (arith, room);
        head = λ a lo hi.
            laws.stays h tail page a (
              laws.closes c (os.base_ptr i) page (laws.cleared i) ok a lo
                (omega (arith, hi, same)));
        tail = λ a lo hi.
            laws.closes h tail page ok ok' a (omega (arith, lo, same, at, room))
              (omega (arith, hi, at, room));
        spared = λ whole a lo hi shut.
            let base_whole : IsAligned (os.base_ptr i) os_page = mod-eq-zero_of_dvd os_page (
              dvd_trans os_page (dvd_of_mod-eq-zero os_page whole)
                (dvd_of_mod-eq-zero page r.base_aligned)) in
            let tail_whole : IsAligned tail os_page =
              tail-IsAligned os_page (os.base_ptr h) (os.region_size i) page whole
                (subst (λ (x : ℕ). IsAligned x page) (sym at) r.base_aligned) r.size_aligned in
            laws.clear_keeps i a (
              laws.spares c (os.base_ptr i) page base_whole whole a (inr (omega (arith, lo, same)))
                (laws.spares h tail page tail_whole whole a
                  (inl (omega (arith, hi, same, at, room))) shut));
      }

  new-refused : (i : I) (page : ℕ) → check_region w os i page ≡ none → new w os i page ≡ (i, none)
  unfolding new
  new-refused i page e = ground (arith, e)

  new-asked :
      (i : I) (page : ℕ)
      → check_region w os i page ≡ some tt
      → ((os.last_os_error (headed os i page) ≡ none)
          × (os.last_os_error (guarded os i page) ≡ none)
          × (new w os i page ≡ (guarded os i page, some (made i page))))
        ⊎ (((os.last_os_error (headed os i page) ≢ none)
              ⊎ (os.last_os_error (guarded os i page) ≢ none))
            × ((new w os i page).1 ≡ none))
  unfolding new install_guards protect_page
  new-asked i page e = elim (Bool-cases (is_clear (os.last_os_error (headed os i page)))) [
    | inr told ↦
        inr (inl (λ clear. ground (arith, told, is_clear-none clear)), ground (arith, e, told))
    | inl ok ↦ elim (Bool-cases (is_clear (os.last_os_error (guarded os i page)))) [
      | inr told ↦
          inr
            (inr (λ clear. ground (arith, told, is_clear-none clear)), ground (arith, e, ok, told))
      | inl ok' ↦ inl (
        is_clear_lem (os.last_os_error (headed os i page)) ok,
        is_clear_lem (os.last_os_error (guarded os i page)) ok',
        ground (arith, e, ok, ok'),
      )
    ]
  ]

  -- For a page size and a region of `w` bits: `GuardPage::new` succeeds exactly where the page size is a
  -- power of two, the region holds two pages and a byte, it starts and ends on a page, and neither
  -- protection records an error. Then both guard pages fault, the usable range is what lies between them, and
  -- where the page is a multiple of the system's page, no byte of that range is closed that was not.
  pub new_iff :
      (i : I) (page : ℕ)
      → page < 2 ^ w
      → os.region_size i < 2 ^ w
      → ((Roomy w os i page
            × (os.last_os_error (headed os i page) ≡ none)
            × (os.last_os_error (guarded os i page) ≡ none))
          ↔ ((g : GuardPage I) × ((new w os i page).1 ≡ some g)))
        × ((g : GuardPage I)
            → (new w os i page).1 ≡ some g
            → (g.cursor ≡ 0) × Guards os os_page closed i page g)
  new_iff i page word size = elim (Option-cases (check_region w os i page)) [
    | inl refused ↦
        let no : (new w os i page).1 ≡ none = ap (λ x. x.1) (new-refused i page refused) in
        (
          (
            λ h. absurd (ground (arith, refused, Roomy-check_region w os i page size h.0)),
            λ h. absurd (ground (arith, no, h.1)),
          ),
          λ g e. absurd (ground (arith, no, e)),
        )
    | inr (u, good) ↦ elim (new-asked i page good) [
      | inr (told, nothing) ↦ (
        (
          λ h. elim told [ inl bad ↦ absurd (bad h.1) | inr bad ↦ absurd (bad h.2) ],
          λ h. absurd (ground (arith, nothing, h.1)),
        ),
        λ g e. absurd (ground (arith, nothing, e)),
      )
      | inl (ok, ok', same) ↦
          let r : Roomy w os i page = check_region-Roomy w os i page word good in
          let answer : (new w os i page).1 ≡ some (made i page) = ap (λ x. x.1) same in
          (
            (λ h. (made i page, answer), λ h. (r, ok, ok')),
            λ g e.
                let is : made i page ≡ g = ground (arith, answer, e) in
                subst (λ (x : GuardPage I). (x.cursor ≡ 0) × Guards os os_page closed i page x) is
                  (refl, made-Guards i page r ok ok'),
          )
    ]
  ]
