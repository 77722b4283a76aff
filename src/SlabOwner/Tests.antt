-- ===== src/SlabOwner/Tests.antt =====
-- A slab that is the number of its free slots; the block tells how many were free.
use forge_alloc.Base.{ℕ, ◌+◌, ◌-◌, ◌≡◌, ◌≢◌, refl, false, none, some, [], ◌∷◌, ◌==◌, if◌then◌else◌}
use forge_alloc.Core.Layout.{NonZeroLayout}
use forge_alloc.Core.Allocator.{Allocator}
use forge_alloc.SlabOwner.{
  SlabOwner, RemoteEntry, BatchPolicy, Turn, with_batch_policy, try_deallocate, remote_deallocate,
  close, allocate, threshold,
}
use forge_alloc.SlabOwner.Steps.{State, Step, Reach}
use forge_alloc.SlabOwner.Sound.{Sound, start, start-Reach-Sound}
use forge_alloc.SlabOwner.Answers.{Answers, allocate-Answers}

abbrev slots : Allocator ℕ
slots = record {
  allocate = λ s l.
      if s == 0 then (s, none) else (s - 1, some (record { address = 4096 + s; length = l.size }));
  deallocate = λ s ptr l. s + 1;
}

abbrev word : NonZeroLayout
word = record { size = 8; align = 8 }

abbrev entry : RemoteEntry
entry = record { ptr = 4100; layout = word }

-- No slot is free, and another thread frees one while the owner allocates.
abbrev empty : SlabOwner ℕ
empty = record {
  slab = 0;
  queue_capacity = 2;
  remote_queue = [];
  remote_queue_len = 0;
  closed = false;
  batch_policy = BatchPolicy.adaptive;
  adaptive = record { step = 3; cooldown = 0 };
}

abbrev pushed : SlabOwner ℕ → SlabOwner ℕ
pushed o = (try_deallocate o entry).0

abbrev turn : Turn
turn = record { pending = 0; contended = false }

serves_from_remote :
    (allocate slots 64 pushed empty turn word).1 ≡ some (record { address = 4097; length = 8 })
unfolding allocate try_deallocate
serves_from_remote = refl

leaks_when_closed :
    remote_deallocate ((λ o. o) ∷ []) (close slots empty) entry ≡ some (close slots empty)
unfolding remote_deallocate close
leaks_when_closed = refl

spins_while_full :
    remote_deallocate ((λ o. o) ∷ (λ o. o) ∷ []) (record empty { queue_capacity = 0 }) entry ≡ none
unfolding remote_deallocate
spins_while_full = refl

allocate-Answers_example :
    Answers slots 64 pushed empty word
      (allocate slots 64 pushed empty turn word).0
      (allocate slots 64 pushed empty turn word).1
allocate-Answers_example = allocate-Answers slots 64 pushed empty turn word

-- A remote thread pushes an entry.
abbrev one_push : State ℕ
one_push = record {
  owner = (try_deallocate (start slots 64 4 BatchPolicy.adaptive 2).owner entry).0;
  accepted = entry ∷ [];
}

start-Reach-Sound_example : Sound one_push × (threshold one_push.owner.adaptive ≢ none)
unfolding try_deallocate with_batch_policy
start-Reach-Sound_example =
    start-Reach-Sound slots 64 4 BatchPolicy.adaptive 2 one_push
      (Reach.next Reach.here (Step.pushes entry refl refl))
