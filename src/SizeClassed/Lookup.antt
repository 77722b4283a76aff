-- ===== src/SizeClassed/Lookup.antt =====
-- The routing table of `with_class_sizes` in its two passes.
pub mod Least
use native.Mathlib.Nat.{mod-eq_of_lt}
use forge_alloc.Base.{
  ℕ, zero, suc, ◌+◌, ◌-◌, ◌%◌, ◌^◌, ◌≤◌, ◌<◌, ◌≡◌, ◌≢◌, ◌⊎◌, refl, sym, ap, subst, ◌∙◌, inl, inr,
  arith, Bool, true, false, Bool-cases, ltb, ◌==◌, ◌&&◌, ==_iff, not, if◌then◌else◌,
}
use forge_alloc.Word.Defs.{trailing_zeros}

-- `CLASS_LOOKUP_NONE`
abbrev pub class_lookup_none : ℕ
class_lookup_none = 255

abbrev pub Table : Type 0
Table = ℕ → ℕ

abbrev pub set_entry : Table → ℕ → ℕ → Table
set_entry t k v j = if j == k then v else t j

-- One round of the first pass, for a class with its lowest bit at `bit`.
unfoldable pub mark_one : Table → ℕ → ℕ → Table
mark_one t bit i =
    if ltb bit 32 && t bit == class_lookup_none then set_entry t bit (i % 2 ^ 8) else t

-- The rounds for the first `n` classes.
unfoldable pub mark : ℕ → (ℕ → ℕ) → ℕ → Table
mark w class_sizes zero = λ k. class_lookup_none
mark w class_sizes (suc n) = mark_one (mark w class_sizes n) (trailing_zeros w (class_sizes n)) n

-- The second pass, over the `k` lowest entries from the highest of them down.
unfoldable pub fill_gaps : ℕ → ℕ → Table → Table
fill_gaps zero next t = t
fill_gaps (suc k) next t = elim (t k == class_lookup_none) [
  | false ↦ fill_gaps k (t k) t
  | true ↦ fill_gaps k next (set_entry t k next)
]

unfoldable pub build_lookup : ℕ → (ℕ → ℕ) → ℕ → Table
unfolding mark fill_gaps
build_lookup w class_sizes classes = fill_gaps 32 class_lookup_none (mark w class_sizes classes)
