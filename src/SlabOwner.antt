-- ===== src/SlabOwner.antt =====
-- crates/forge-alloc/src/layout/slab_owner.rs: `SlabOwner<T, B>` and `SlabRemote<T, B>`. The slab is a
-- state `S` with the operations of an allocator. The queue has its front first; what the owner's
-- relaxed read of the mirrored length sees, and whether the lock is taken, is a `Turn`.
pub mod Steps
pub mod Sound
pub mod Answers
mod Tests
use forge_alloc.Base.{
  ℕ, zero, suc, ◌+◌, ◌-◌, ◌*◌, Bool, true, false, Option, none, some, List, [], ◌∷◌, ◌++◌, length,
  get_elem?, ltb, leb, ◌==◌, ◌&&◌, if◌then◌else◌,
}
use forge_alloc.Word.Defs.{saturating_mul}
use forge_alloc.Core.Layout.{NonZeroLayout}
use forge_alloc.Core.Range.{Block}
use forge_alloc.Core.Allocator.{Allocator}

pub record RemoteEntry : Type 0 where
  pub ptr : ℕ
  pub layout : NonZeroLayout

pub data BatchPolicy : Type 0 where
  fixed : ℕ → BatchPolicy
  adaptive : BatchPolicy

pub record AdaptiveState : Type 0 where
  pub step : ℕ
  pub cooldown : ℕ

-- `ADAPTIVE_LEVELS` and `ADAPTIVE_COOLDOWN_TICKS`
abbrev pub adaptive_levels : List ℕ
adaptive_levels = 8 ∷ 16 ∷ 32 ∷ 64 ∷ 128 ∷ []

abbrev pub adaptive_cooldown_ticks : ℕ
adaptive_cooldown_ticks = 16

unfoldable pub initial : AdaptiveState
initial = record { step = 3; cooldown = 0 }

-- `none` is the panic of an index out of range.
unfoldable pub threshold : AdaptiveState → Option ℕ
threshold s = get_elem? adaptive_levels s.step

-- The state after `adaptive_threshold`, which returns its threshold.
unfoldable pub adapt : ℕ → ℕ → AdaptiveState → ℕ → AdaptiveState
adapt w cap s pending =
    if ltb 0 s.cooldown
    then record s { cooldown = s.cooldown - 1 }
    else if ltb (saturating_mul w cap 3) (saturating_mul w pending 4) && ltb 0 s.step
    then record { step = s.step - 1; cooldown = adaptive_cooldown_ticks }
    else if ltb (saturating_mul w pending 4) cap && ltb s.step 4
    then record { step = s.step + 1; cooldown = adaptive_cooldown_ticks }
    else s

pub record SlabOwner (S : Type 0) : Type 0 where
  pub slab : S
  pub queue_capacity : ℕ
  pub remote_queue : List RemoteEntry
  pub remote_queue_len : ℕ
  pub closed : Bool
  pub batch_policy : BatchPolicy
  pub adaptive : AdaptiveState

pub record Turn : Type 0 where
  pub pending : ℕ
  pub contended : Bool

unfoldable pub with_batch_policy : {S : Type 0} → S → BatchPolicy → ℕ → SlabOwner S
unfolding initial
with_batch_policy slab policy queue_capacity = record {
  slab = slab;
  queue_capacity = queue_capacity;
  remote_queue = [];
  remote_queue_len = 0;
  closed = false;
  batch_policy = policy;
  adaptive = initial;
}

-- The threshold of a policy, and the owner that it leaves.
unfoldable pub threshold_of :
    {S : Type 0} → ℕ → BatchPolicy → SlabOwner S → ℕ → SlabOwner S × Option ℕ
unfolding adapt threshold
threshold_of w (BatchPolicy.fixed n) o pending = (o, some n)
threshold_of w BatchPolicy.adaptive o pending =
    let state = adapt w o.queue_capacity o.adaptive pending in
    (record o { adaptive = state }, threshold state)

module _ {S : Type 0} (al : Allocator S) where
  unfoldable pub give_all : S → List RemoteEntry → S
  give_all s [] = s
  give_all s (e ∷ es) = give_all (al.deallocate s e.ptr e.layout) es

  -- The entries taken from the queue go to the slab; where there are none nothing happens.
  unfoldable pub drain_entries : List RemoteEntry → SlabOwner S → SlabOwner S
  unfolding give_all
  drain_entries [] o = o
  drain_entries (e ∷ es) o = record o {
    slab = give_all o.slab (e ∷ es);
    remote_queue = [];
    remote_queue_len = 0;
  }

  unfoldable pub drain : SlabOwner S → SlabOwner S
  unfolding drain_entries
  drain o = drain_entries o.remote_queue o

  unfoldable pub maybe_drain : ℕ → SlabOwner S → Turn → SlabOwner S
  unfolding threshold_of drain
  maybe_drain w o t =
      let (o', limit) = threshold_of w o.batch_policy o t.pending in
      elim limit [
        | none ↦ o'
        | some n ↦ if ltb t.pending n then o' else if t.contended then o' else drain o'
      ]

  unfoldable pub slab_free : SlabOwner S → RemoteEntry → SlabOwner S
  slab_free o e = record o { slab = al.deallocate o.slab e.ptr e.layout }

  unfoldable pub slab_allocate : SlabOwner S → NonZeroLayout → SlabOwner S × Option Block
  slab_allocate o l = let (s, got) = al.allocate o.slab l in (record o { slab = s }, got)

  unfoldable pub deallocate : ℕ → SlabOwner S → Turn → RemoteEntry → SlabOwner S
  unfolding maybe_drain slab_free
  deallocate w o t e = slab_free (maybe_drain w o t) e

  -- `others` is what remote threads push before the second try.
  unfoldable pub allocate :
      ℕ
      → (SlabOwner S → SlabOwner S)
      → SlabOwner S
      → Turn
      → NonZeroLayout
      → SlabOwner S × Option Block
  unfolding maybe_drain slab_allocate drain
  allocate w others o t l =
      let (o', got) = slab_allocate (maybe_drain w o t) l in
      elim got [ some b ↦ (o', some b) | none ↦ slab_allocate (drain (others o')) l ]

  -- `Drop for SlabOwner`: close, then give everything back.
  unfoldable pub close : SlabOwner S → SlabOwner S
  unfolding give_all
  close o = record o {
    slab = give_all o.slab o.remote_queue;
    remote_queue = [];
    remote_queue_len = 0;
    closed = true;
  }

-- `SlabRemote::try_deallocate`: whether the entry was taken.
unfoldable pub try_deallocate : {S : Type 0} → SlabOwner S → RemoteEntry → SlabOwner S × Bool
try_deallocate o e =
    if o.closed
    then (o, false)
    else if leb o.queue_capacity (length o.remote_queue)
    then (o, false)
    else (
      record o {
        remote_queue = o.remote_queue ++ e ∷ [];
        remote_queue_len = length (o.remote_queue ++ e ∷ []);
      },
      true,
    )

-- `SlabRemote::deallocate`: tries, between which other threads act; `none` while it spins. It leaks the
-- slot of an owner that is closed.
unfoldable pub remote_deallocate :
    {S : Type 0}
    → List (SlabOwner S → SlabOwner S)
    → SlabOwner S
    → RemoteEntry
    → Option (SlabOwner S)
unfolding try_deallocate
remote_deallocate [] o e = none
remote_deallocate (others ∷ rest) o e =
    let (o', taken) = try_deallocate o e in
    elim taken [
      | true ↦ some o'
      | false ↦ elim (others o).closed [
        | true ↦ some (others o)
        | false ↦ remote_deallocate rest (others o) e
      ]
    ]
