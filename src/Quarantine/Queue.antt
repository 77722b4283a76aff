-- ===== src/Quarantine/Queue.antt =====
-- The ring as a queue: a free puts its block at the end, and once the queue is longer than `epochs`
-- its first block goes to the inner allocator.
use forge_alloc.Base.{ℕ, suc, Option, List, [], ◌∷◌, ◌++◌, length, ltb, if◌then◌else◌}
use forge_alloc.Core.Layout.{NonZeroLayout}
use forge_alloc.Core.Range.{Block}
use forge_alloc.Core.Allocator.{Allocator}
use forge_alloc.Quarantine.{Quarantine, QuarantinedBlock, allocate, deallocate}

-- What the caller does.
pub data Event : Type 0 where
  allocates : NonZeroLayout → Event
  frees : QuarantinedBlock → Event

abbrev pub frees_in : List Event → ℕ
frees_in [] = 0
frees_in (Event.allocates l ∷ es) = frees_in es
frees_in (Event.frees b ∷ es) = suc (frees_in es)

-- The specification: the blocks that wait, the oldest first.
pub record Delayed (S : Type 0) : Type 0 where
  pub inner : S
  pub held : List QuarantinedBlock

module _ {S : Type 0} (al : Allocator S) where
  -- The queue gives its first block back where it is longer than `epochs`.
  unfoldable pub settle : ℕ → S → List QuarantinedBlock → Delayed S
  settle epochs s [] = record { inner = s; held = [] }
  settle epochs s (b ∷ bs) =
      if ltb epochs (length (b ∷ bs))
      then record { inner = al.deallocate s b.ptr b.layout; held = bs }
      else record { inner = s; held = b ∷ bs }

  unfoldable pub delay : ℕ → Delayed S → QuarantinedBlock → Delayed S
  unfolding settle
  delay epochs d b = settle epochs d.inner (d.held ++ b ∷ [])

  -- The states and the answers to the allocations, in the code and in the specification.
  unfoldable pub run : ℕ → ℕ → Quarantine S → List Event → Quarantine S × List (Option Block)
  run w epochs q [] = (q, [])
  run w epochs q (Event.allocates l ∷ es) =
      let (q', got) = allocate al q l in
      let (q'', answers) = run w epochs q' es in (q'', got ∷ answers)
  run w epochs q (Event.frees b ∷ es) = run w epochs (deallocate al w epochs q b.ptr b.layout) es

  unfoldable pub run_delayed : ℕ → Delayed S → List Event → Delayed S × List (Option Block)
  run_delayed epochs d [] = (d, [])
  run_delayed epochs d (Event.allocates l ∷ es) =
      let (s, got) = al.allocate d.inner l in
      let (d', answers) = run_delayed epochs (record d { inner = s }) es in (d', got ∷ answers)
  run_delayed epochs d (Event.frees b ∷ es) = run_delayed epochs (delay epochs d b) es
