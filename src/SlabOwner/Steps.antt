-- ===== src/SlabOwner/Steps.antt =====
-- What the owner and the remote threads do, over a slab that logs what it is given back. A step is one
-- critical section, with the slab calls that follow it: only the owner touches the slab, and between taking
-- the entries and freeing them a remote thread touches only the queue, so its pushes come after the step.
use forge_alloc.Base.{ℕ, ◌+◌, ◌≡◌, List, [], ◌∷◌, ◌==◌, if◌then◌else◌}
use forge_alloc.Core.Layout.{NonZeroLayout}
use forge_alloc.Core.Allocator.{Allocator}
use forge_alloc.SlabOwner.{
  SlabOwner, RemoteEntry, Turn, drain, maybe_drain, slab_allocate, deallocate, try_deallocate,
  close,
}

-- The slab with the list of the calls of its `deallocate`, the last one first.
abbrev pub Logged : Type 0 → Type 0
Logged S = S × List RemoteEntry

abbrev pub logged : {S : Type 0} → Allocator S → Allocator (Logged S)
logged al = record {
  allocate = λ x l. (((al.allocate x.0 l).0, x.1), (al.allocate x.0 l).1);
  deallocate = λ x ptr l. (al.deallocate x.0 ptr l, record { ptr = ptr; layout = l } ∷ x.1);
}

-- How often a list frees an address.
unfoldable pub times : ℕ → List RemoteEntry → ℕ
times p [] = 0
times p (e ∷ es) = (if e.ptr == p then 1 else 0) + times p es

-- `accepted` are the frees that the caller has been relieved of.
pub record State (S : Type 0) : Type 0 where
  pub owner : SlabOwner (Logged S)
  pub accepted : List RemoteEntry

module _ (w : ℕ) {S : Type 0} (al : Allocator S) where
  pub data Step (s t : State S) : Type 0 where
    pushes :
        (e : RemoteEntry)
        → t.owner ≡ (try_deallocate s.owner e).0
        → t.accepted ≡ (if (try_deallocate s.owner e).1 then e ∷ s.accepted else s.accepted)
        → Step s t
    frees :
        (turn : Turn) (e : RemoteEntry)
        → t.owner ≡ deallocate (logged al) w s.owner turn e
        → t.accepted ≡ e ∷ s.accepted
        → Step s t
    maybe_drains :
        (turn : Turn)
        → t.owner ≡ maybe_drain (logged al) w s.owner turn
        → t.accepted ≡ s.accepted
        → Step s t
    allocates :
        (l : NonZeroLayout)
        → t.owner ≡ (slab_allocate (logged al) s.owner l).0
        → t.accepted ≡ s.accepted
        → Step s t
    drains : t.owner ≡ drain (logged al) s.owner → t.accepted ≡ s.accepted → Step s t
    closes : t.owner ≡ close (logged al) s.owner → t.accepted ≡ s.accepted → Step s t

  pub data Reach (s : State S) : State S → Type 0 where
    here : Reach s s
    next : {t u : State S} → Reach s t → Step t u → Reach s u
