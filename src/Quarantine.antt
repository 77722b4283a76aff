-- ===== src/Quarantine.antt =====
-- crates/forge-alloc/src/hardening/quarantine.rs: `Quarantine<I, EPOCHS>` over an inner allocator with
-- state `S`. The array `ring` is a function of the index, of which the code reads the first `epochs`
-- places; `epochs` is at least 1 by a check at compile time. `count` has `w` bits.
pub mod Ring
pub mod Queue
pub mod Held
pub mod Runs
pub mod Collect
pub mod Drain
mod Tests
use forge_alloc.Base.{ℕ, zero, suc, ◌+◌, ◌%◌, Bool, Option, none, some, ◌==◌, if◌then◌else◌}
use forge_alloc.Word.Defs.{wrapping_add}
use forge_alloc.Core.Layout.{NonZeroLayout}
use forge_alloc.Core.Memory.{Memory}
use forge_alloc.Core.Range.{Block}
use forge_alloc.Core.Allocator
use forge_alloc.Core.Allocator.{Allocator}

pub record QuarantinedBlock : Type 0 where
  pub ptr : ℕ
  pub layout : NonZeroLayout

pub record Quarantine (S : Type 0) : Type 0 where
  pub inner : S
  pub ring : ℕ → Option QuarantinedBlock
  pub count : ℕ

unfoldable pub new : {S : Type 0} → S → Quarantine S
new inner = record { inner = inner; ring = λ i. none; count = 0 }

-- A write of one place of the ring.
abbrev pub update :
    (ℕ → Option QuarantinedBlock) → ℕ → Option QuarantinedBlock → ℕ → Option QuarantinedBlock
update ring idx b i = if i == idx then b else ring i

module _ {S : Type 0} (al : Allocator S) where
  -- What `self.inner.deallocate` is called with, where a place held a block.
  unfoldable pub evict : S → Option QuarantinedBlock → S
  evict s none = s
  evict s (some prior) = al.deallocate s prior.ptr prior.layout

  unfoldable pub deallocate : ℕ → ℕ → Quarantine S → ℕ → NonZeroLayout → Quarantine S
  deallocate w epochs q ptr l =
      let idx = q.count % epochs in
      record {
        inner = evict q.inner (q.ring idx);
        ring = update q.ring idx (some (record { ptr = ptr; layout = l }));
        count = wrapping_add w q.count 1;
      }

  unfoldable pub allocate : Quarantine S → NonZeroLayout → Quarantine S × Option Block
  allocate q l = let (s, got) = al.allocate q.inner l in (record q { inner = s }, got)

  -- The inner `allocate_zeroed`, in its default form.
  unfoldable pub allocate_zeroed :
      Quarantine S → Memory → NonZeroLayout → Quarantine S × Memory × Option Block
  allocate_zeroed q m l =
      let (s, m', got) = Allocator.allocate_zeroed al q.inner m l in
      (record q { inner = s }, m', got)

  -- One round of the drop: place `i` is taken and its block given back.
  unfoldable pub take_at : Quarantine S → ℕ → Quarantine S
  unfolding evict
  take_at q i = record q { inner = evict q.inner (q.ring i); ring = update q.ring i none }

  -- The rounds from place `i` on, `n` of them.
  unfoldable pub drain : ℕ → ℕ → Quarantine S → Quarantine S
  drain zero i q = q
  drain (suc n) i q = drain n (suc i) (take_at q i)

  unfoldable pub drop : ℕ → Quarantine S → Quarantine S
  unfolding drain
  drop epochs q = drain epochs 0 q
