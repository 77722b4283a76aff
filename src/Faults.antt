-- ===== src/Faults.antt =====
-- crates/forge-alloc-core/src/traits/alloc_fault_policy.rs and
-- crates/forge-alloc/src/hardening/faulty.rs: policies that make allocations fail, and `Faulty<I, P>`.
-- A counter that a policy keeps in an atomic is part of its state; the calls are in one order.
pub mod Runs
mod Tests
use forge_alloc.Base.{
  ℕ, ◌+◌, ◌-◌, ◌%◌, ◌^◌, Bool, true, false, Option, none, some, leb, ◌==◌, if◌then◌else◌,
}
use forge_alloc.Word.Defs.{checked_sub}
use forge_alloc.Core.Layout.{NonZeroLayout}
use forge_alloc.Core.Range.{Block}
use forge_alloc.Core.Allocator.{Allocator}

pub record AllocFaultPolicy (P : Type 0) : Type 0 where
  pub should_fail : P → NonZeroLayout → P × Bool

-- `NeverFail` and `AlwaysFail`, which hold nothing.
abbrev pub never_fail : AllocFaultPolicy (Unit {0})
never_fail = record { should_fail = λ p l. (p, false) }

abbrev pub always_fail : AllocFaultPolicy (Unit {0})
always_fail = record { should_fail = λ p l. (p, true) }

pub record FailAfter : Type 0 where
  pub successes_left : ℕ

-- `fetch_update` with `checked_sub(1)`; a refused update is the verdict to fail.
unfoldable pub fail_after : FailAfter → NonZeroLayout → FailAfter × Bool
fail_after p l = elim (checked_sub p.successes_left 1) [
  | none ↦ (p, true)
  | some left ↦ (record { successes_left = left }, false)
]

pub record FailEveryNth : Type 0 where
  pub period : ℕ
  pub count : ℕ

-- `fetch_add` wraps at `w` bits.
unfoldable pub fail_every_nth : ℕ → FailEveryNth → NonZeroLayout → FailEveryNth × Bool
fail_every_nth w p l =
    (record p { count = (p.count + 1) % 2 ^ w }, p.count % p.period == p.period - 1)

pub record FailOnSize : Type 0 where
  pub min_fail_bytes : ℕ

unfoldable pub fail_on_size : FailOnSize → NonZeroLayout → FailOnSize × Bool
fail_on_size p l = (p, leb p.min_fail_bytes l.size)

pub record Faulty (I P : Type 0) : Type 0 where
  pub inner : I
  pub policy : P

module _ {I P : Type 0} (i : Allocator I) (p : AllocFaultPolicy P) where
  unfoldable pub allocate : Faulty I P → NonZeroLayout → Faulty I P × Option Block
  allocate f l =
      let (policy, fails) = p.should_fail f.policy l in
      if fails
      then (record f { policy = policy }, none)
      else (let (inner, got) = i.allocate f.inner l in
          (record { inner = inner; policy = policy }, got))

  unfoldable pub deallocate : Faulty I P → ℕ → NonZeroLayout → Faulty I P
  deallocate f ptr l = record f { inner = i.deallocate f.inner ptr l }

  -- `Allocator for Faulty<I, P>`
  unfoldable pub faulty_allocator : Allocator (Faulty I P)
  unfolding allocate deallocate
  faulty_allocator = record { allocate = allocate; deallocate = deallocate }
