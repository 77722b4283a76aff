-- ===== src/SlabOwner/Sound.antt =====
-- The invariant of an owner and its remote threads.
use mathlib.Core.Path.{subst₂}
use forge_alloc.Base.{
  ℕ, zero, suc, ◌+◌, ◌≤◌, ◌<◌, ◌≡◌, ◌≢◌, refl, sym, ap, subst, inl, inr, arith, Bool, true, false,
  Bool-cases, Option, none, some, List, [], ◌∷◌, ◌++◌, length, length-append, get_elem?, ltb, leb,
  if◌then◌else◌,
}
use forge_alloc.Core.Layout.{NonZeroLayout}
use forge_alloc.Core.Allocator.{Allocator}
use forge_alloc.SlabOwner.{
  SlabOwner, RemoteEntry, BatchPolicy, AdaptiveState, Turn, adapt, threshold, threshold_of, initial,
  adaptive_levels, give_all, drain_entries, drain, maybe_drain, slab_allocate, slab_free,
  deallocate, try_deallocate, close, with_batch_policy,
}
use forge_alloc.SlabOwner.Steps.{Logged, logged, times, State, Step, Reach, here, next}

times-append : (p : ℕ) (xs ys : List RemoteEntry) → times p (xs ++ ys) ≡ times p xs + times p ys
unfolding times
times-append p [] ys = omega arith
times-append p (x ∷ xs) ys = omega (arith, times-append p xs ys)

module _ {S : Type 0} where
  -- The mirror tells the length, the queue keeps its capacity and stays empty once it is closed, the adaptive
  -- step is an index of the table, and every free that was accepted waits in the queue or has reached the
  -- slab, once.
  pub record Sound (s : State S) : Type 0 where
    pub mirror : s.owner.remote_queue_len ≡ length s.owner.remote_queue
    pub within : length s.owner.remote_queue ≤ s.owner.queue_capacity
    pub shut : s.owner.closed ≡ true → s.owner.remote_queue ≡ []
    pub index : s.owner.adaptive.step ≤ 4
    pub once : (p : ℕ) → times p s.owner.slab.1 + times p s.owner.remote_queue ≡ times p s.accepted

  abbrev Keeps : SlabOwner (Logged S) → SlabOwner (Logged S) → Type 0
  Keeps o o' =
      (acc : List RemoteEntry)
      → Sound (record { owner = o; accepted = acc })
      → Sound (record { owner = o'; accepted = acc })

  module _ (al : Allocator S) (w : ℕ) where
    give_all-times :
        (p : ℕ) (x : Logged S) (es : List RemoteEntry)
        → times p (give_all (logged al) x es).1 ≡ times p x.1 + times p es
    unfolding give_all times
    give_all-times p x [] = omega arith
    give_all-times p x (e ∷ es) =
        omega (arith, give_all-times p ((logged al).deallocate x e.ptr e.layout) es)

    drain_entries-Keeps :
        (es : List RemoteEntry) (o : SlabOwner (Logged S))
        → o.remote_queue ≡ es
        → Keeps o (drain_entries (logged al) es o)
    unfolding drain_entries times
    drain_entries-Keeps [] o same acc h = h
    drain_entries-Keeps (e ∷ es) o same acc h = record {
      mirror = refl;
      within = omega arith;
      shut = λ closed. refl;
      index = h.index;
      once = λ p. omega (arith, h.once p, give_all-times p o.slab (e ∷ es), ap (times p) same);
    }

    adapt-le :
        (cap : ℕ) (a : AdaptiveState) (pending : ℕ) → a.step ≤ 4 → (adapt w cap a pending).step ≤ 4
    unfolding adapt
    adapt-le cap a pending h = ground arith

    threshold_of-Keeps :
        (policy : BatchPolicy) (o : SlabOwner (Logged S)) (pending : ℕ)
        → Keeps o (threshold_of w policy o pending).0
    unfolding threshold_of
    threshold_of-Keeps (BatchPolicy.fixed n) o pending acc h = h
    threshold_of-Keeps BatchPolicy.adaptive o pending acc h = record {
      mirror = h.mirror;
      within = h.within;
      shut = h.shut;
      index = adapt-le o.queue_capacity o.adaptive pending h.index;
      once = h.once;
    }

    maybe_drain-Keeps :
        (o : SlabOwner (Logged S)) (t : Turn) → Keeps o (maybe_drain (logged al) w o t)
    unfolding maybe_drain drain
    maybe_drain-Keeps o t acc h =
        let o' : SlabOwner (Logged S) = (threshold_of w o.batch_policy o t.pending).0 in
        let h' : Sound (record { owner = o'; accepted = acc }) =
          threshold_of-Keeps o.batch_policy o t.pending acc h in
        let d : Sound
            (record { owner = drain_entries (logged al) o'.remote_queue o'; accepted = acc }) =
          drain_entries-Keeps o'.remote_queue o' refl acc h' in
        go (threshold_of w o.batch_policy o t.pending).1 h' d
      where
        go :
            (limit : Option ℕ)
            → Sound
                (record { owner = (threshold_of w o.batch_policy o t.pending).0; accepted = acc })
            → Sound (record {
              owner = drain (logged al) (threshold_of w o.batch_policy o t.pending).0;
              accepted = acc;
            })
            → Sound (record {
              owner = elim limit [
                | none ↦ (threshold_of w o.batch_policy o t.pending).0
                | some n ↦
                    if ltb t.pending n
                    then (threshold_of w o.batch_policy o t.pending).0
                    else if t.contended
                    then (threshold_of w o.batch_policy o t.pending).0
                    else drain (logged al) (threshold_of w o.batch_policy o t.pending).0
              ];
              accepted = acc;
            })
        go none h' d = h'
        go (some n) h' d = elim (Bool-cases (ltb t.pending n)) [
          | inl few ↦ rw few h'
          | inr many ↦ elim (Bool-cases t.contended) [
            | inl busy ↦ rw (many, busy) h'
            | inr free ↦ rw (many, free) d
          ]
        ]

    -- A push, whether it is taken or not.
    pushed-Sound :
        (o : SlabOwner (Logged S)) (e : RemoteEntry) (acc : List RemoteEntry)
        → Sound (record { owner = o; accepted = acc })
        → Sound (record {
          owner = (try_deallocate o e).0;
          accepted = if (try_deallocate o e).1 then e ∷ acc else acc;
        })
    unfolding try_deallocate times
    pushed-Sound o e acc h = elim (Bool-cases o.closed) [
      | inl shut ↦
          let e1 : try_deallocate o e ≡ (o, false) = ground (arith, shut) in subst After (sym e1) h
      | inr running ↦ elim (Bool-cases (leb o.queue_capacity (length o.remote_queue))) [
        | inl full ↦
            let e1 : try_deallocate o e ≡ (o, false) = ground (arith, running, full) in
            subst After (sym e1) h
        | inr room ↦
            let less : length o.remote_queue < o.queue_capacity = ground (arith, room) in
            let e1 : try_deallocate o e ≡ (
              record o {
                remote_queue = o.remote_queue ++ e ∷ [];
                remote_queue_len = length (o.remote_queue ++ e ∷ []);
              },
              true,
            ) =
              ground (arith, running, room) in
            subst After (sym e1) (record {
              mirror = refl;
              within = omega (arith, length-append o.remote_queue (e ∷ []), less);
              shut = λ closed. absurd (ground (arith, running, closed));
              index = h.index;
              once = λ p. omega (arith, h.once p, times-append p o.remote_queue (e ∷ []));
            })
      ]
    ]
      where
        After : SlabOwner (Logged S) × Bool → Type 0
        After x = Sound (record { owner = x.0; accepted = if x.1 then e ∷ acc else acc })

    freed-Sound :
        (o : SlabOwner (Logged S)) (e : RemoteEntry) (acc : List RemoteEntry)
        → Sound (record { owner = o; accepted = acc })
        → Sound (record { owner = slab_free (logged al) o e; accepted = e ∷ acc })
    unfolding slab_free times
    freed-Sound o e acc h = record {
      mirror = h.mirror;
      within = h.within;
      shut = h.shut;
      index = h.index;
      once = λ p. omega (arith, h.once p);
    }

    allocated-Keeps :
        (o : SlabOwner (Logged S)) (l : NonZeroLayout) → Keeps o (slab_allocate (logged al) o l).0
    unfolding slab_allocate
    allocated-Keeps o l acc h = record {
      mirror = h.mirror;
      within = h.within;
      shut = h.shut;
      index = h.index;
      once = h.once;
    }

    closed-Keeps : (o : SlabOwner (Logged S)) → Keeps o (close (logged al) o)
    unfolding close times
    closed-Keeps o acc h = record {
      mirror = refl;
      within = omega arith;
      shut = λ closed. refl;
      index = h.index;
      once = λ p. omega (arith, h.once p, give_all-times p o.slab o.remote_queue);
    }

    of_parts :
        (t : State S) (o : SlabOwner (Logged S)) (acc : List RemoteEntry)
        → t.owner ≡ o
        → t.accepted ≡ acc
        → Sound (record { owner = o; accepted = acc })
        → Sound t
    of_parts t o acc eo ea h =
        subst₂
          (λ (x : SlabOwner (Logged S)) (y : List RemoteEntry).
            Sound (record { owner = x; accepted = y }))
          (sym eo) (sym ea) h

    Step-Sound : (s t : State S) → Step w al s t → Sound s → Sound t
    unfolding deallocate drain
    Step-Sound s t (Step.pushes e eo ea) h =
        of_parts t (try_deallocate s.owner e).0
          (if (try_deallocate s.owner e).1 then e ∷ s.accepted else s.accepted) eo ea
          (pushed-Sound s.owner e s.accepted h)
    Step-Sound s t (Step.frees turn e eo ea) h =
        of_parts t (deallocate (logged al) w s.owner turn e) (e ∷ s.accepted) eo ea (
          freed-Sound (maybe_drain (logged al) w s.owner turn) e s.accepted
            (maybe_drain-Keeps s.owner turn s.accepted h))
    Step-Sound s t (Step.maybe_drains turn eo ea) h =
        of_parts t (maybe_drain (logged al) w s.owner turn) s.accepted eo ea
          (maybe_drain-Keeps s.owner turn s.accepted h)
    Step-Sound s t (Step.allocates l eo ea) h =
        of_parts t (slab_allocate (logged al) s.owner l).0 s.accepted eo ea
          (allocated-Keeps s.owner l s.accepted h)
    Step-Sound s t (Step.drains eo ea) h =
        of_parts t (drain (logged al) s.owner) s.accepted eo ea
          (drain_entries-Keeps s.owner.remote_queue s.owner refl s.accepted h)
    Step-Sound s t (Step.closes eo ea) h =
        of_parts t (close (logged al) s.owner) s.accepted eo ea (closed-Keeps s.owner s.accepted h)

    Reach-Sound : {s t : State S} → Sound s → Reach w al s t → Sound t
    Reach-Sound h here = h
    Reach-Sound h (next {t} {u} path st) = Step-Sound t u st (Reach-Sound h path)

    -- A new owner, whose slab has not been given anything back.
    abbrev pub start : S → BatchPolicy → ℕ → State S
    start slab policy capacity = record {
      owner = with_batch_policy (slab, []) policy capacity;
      accepted = [];
    }

    -- For any number of remote threads and every order of their pushes and the owner's steps, whatever the
    -- owner's read of the mirror sees and whenever it finds the lock taken, from a new owner: each free
    -- that was accepted, from the owner or a remote thread, waits in the queue or has been made on the
    -- slab, exactly once, counted by its address; the mirror tells the length of the queue, which keeps to
    -- its capacity and is empty once the owner is closed; and the adaptive step is an index of the table
    -- of thresholds.
    pub start-Reach-Sound :
        (slab : S) (policy : BatchPolicy) (capacity : ℕ) (t : State S)
        → Reach w al (start slab policy capacity) t
        → Sound t × (threshold t.owner.adaptive ≢ none)
    unfolding with_batch_policy initial times threshold
    start-Reach-Sound slab policy capacity t path =
        let h : Sound t =
          Reach-Sound
            (record {
              mirror = refl;
              within = omega arith;
              shut = λ closed. refl;
              index = omega arith;
              once = λ p. refl;
            })
            path in
        (h, in_range t.owner.adaptive.step h.index)
      where
        in_range : (n : ℕ) → n ≤ 4 → get_elem? adaptive_levels n ≢ none
        in_range zero h e = cc
        in_range (suc zero) h e = cc
        in_range (suc (suc zero)) h e = cc
        in_range (suc (suc (suc zero))) h e = cc
        in_range (suc (suc (suc (suc zero)))) h e = cc
        in_range (suc (suc (suc (suc (suc n))))) h e = absurd (omega (arith, h))
