-- ===== src/SlabOwner/Answers.antt =====
-- What the owner's allocation answers, by the frees that the slab has been given when it does.
use forge_alloc.Base.{
  ℕ, ◌≡◌, ◌⊎◌, refl, sym, ap, subst, inl, inr, arith, Bool-cases, Option, Option-cases, none, some,
  List, [], ◌∷◌, ltb,
}
use forge_alloc.Core.Layout.{NonZeroLayout}
use forge_alloc.Core.Range.{Block}
use forge_alloc.Core.Allocator.{Allocator}
use forge_alloc.SlabOwner.{
  SlabOwner, RemoteEntry, BatchPolicy, Turn, give_all, drain_entries, drain, threshold_of,
  maybe_drain, slab_allocate, allocate,
}

-- From the slab `s`, the frees of the entries, each once and in their order, lead to the slab `s'`.
pub data Freed {S : Type 0} (al : Allocator S) : S → List RemoteEntry → S → Type 0 where
  done : {s : S} → Freed al s [] s
  one_more :
      {s : S} {e : RemoteEntry} {es : List RemoteEntry} {s' : S}
      → Freed al (al.deallocate s e.ptr e.layout) es s'
      → Freed al s (e ∷ es) s'

module _ {S : Type 0} (al : Allocator S) (w : ℕ) where
  -- The waiting frees have been made and the queue is empty.
  pub record Emptied (o o' : SlabOwner S) : Type 0 where
    pub freed : Freed al o.slab o.remote_queue o'.slab
    pub queue : o'.remote_queue ≡ []

  -- The slab and the queue are as they were.
  pub record Untouched (o o' : SlabOwner S) : Type 0 where
    pub slab : o'.slab ≡ o.slab
    pub queue : o'.remote_queue ≡ o.remote_queue

  give_all-Freed : (s : S) (es : List RemoteEntry) → Freed al s es (give_all al s es)
  unfolding give_all
  give_all-Freed s [] = Freed.done
  give_all-Freed s (e ∷ es) = Freed.one_more (give_all-Freed (al.deallocate s e.ptr e.layout) es)

  drain_entries-Emptied :
      (es : List RemoteEntry) (o : SlabOwner S)
      → o.remote_queue ≡ es
      → Emptied o (drain_entries al es o)
  unfolding drain_entries
  drain_entries-Emptied [] o e = record {
    freed = subst (λ (q : List RemoteEntry). Freed al o.slab q o.slab) (sym e) Freed.done;
    queue = e;
  }
  drain_entries-Emptied (x ∷ xs) o e = record {
    freed =
        subst (λ (q : List RemoteEntry). Freed al o.slab q (give_all al o.slab (x ∷ xs))) (sym e)
          (give_all-Freed o.slab (x ∷ xs));
    queue = refl;
  }

  drain-Emptied : (o : SlabOwner S) → Emptied o (drain al o)
  unfolding drain
  drain-Emptied o = drain_entries-Emptied o.remote_queue o refl

  threshold_of-Untouched :
      (policy : BatchPolicy) (o : SlabOwner S) (pending : ℕ)
      → Untouched o (threshold_of w policy o pending).0
  unfolding threshold_of
  threshold_of-Untouched (BatchPolicy.fixed n) o pending = record { slab = refl; queue = refl }
  threshold_of-Untouched BatchPolicy.adaptive o pending = record { slab = refl; queue = refl }

  Untouched-Emptied : (o o' o'' : SlabOwner S) → Untouched o o' → Emptied o' o'' → Emptied o o''
  Untouched-Emptied o o' o'' u d = record {
    freed =
        subst (λ (s : S). Freed al s o.remote_queue o''.slab) u.slab
          (subst (λ (q : List RemoteEntry). Freed al o'.slab q o''.slab) u.queue d.freed);
    queue = d.queue;
  }

  maybe_drain-cases :
      (o : SlabOwner S) (t : Turn)
      → Untouched o (maybe_drain al w o t) ⊎ Emptied o (maybe_drain al w o t)
  unfolding maybe_drain
  maybe_drain-cases o t =
      let x : SlabOwner S × Option ℕ = threshold_of w o.batch_policy o t.pending in
      let u : Untouched o x.0 = threshold_of-Untouched o.batch_policy o t.pending in
      elim (Option-cases x.1) [
        | inl never ↦ inl (rw (never, maybe_drain) u)
        | inr (n, at) ↦ elim (Bool-cases (ltb t.pending n)) [
          | inl few ↦ inl (rw (at, few, maybe_drain) u)
          | inr many ↦ elim (Bool-cases t.contended) [
            | inl busy ↦ inl (rw (at, many, busy, maybe_drain) u)
            | inr free ↦ inr (
                rw (at, many, free, maybe_drain)
                  (Untouched-Emptied o x.0 (drain al x.0) u (drain-Emptied x.0)))
          ]
        ]
      ]

  -- How the call comes to its answer: the first try, on the slab as it was or with the waiting frees made;
  -- where that is refused, all frees that then wait, and the second try.
  pub data Answers (others : SlabOwner S → SlabOwner S) (o : SlabOwner S) (l : NonZeroLayout)
      (o' : SlabOwner S) (got : Option Block) : Type 0 where
    at_first :
        (before : SlabOwner S) (b : Block)
        → Untouched o before ⊎ Emptied o before
        → got ≡ some b
        → al.allocate before.slab l ≡ (o'.slab, some b)
        → o'.remote_queue ≡ before.remote_queue
        → Answers others o l o' got
    after_drain :
        (before : SlabOwner S) (tried emptied : S)
        → Untouched o before ⊎ Emptied o before
        → al.allocate before.slab l ≡ (tried, none)
        → Freed al
            (others (record before { slab = tried })).slab
            (others (record before { slab = tried })).remote_queue
            emptied
        → al.allocate emptied l ≡ (o'.slab, got)
        → o'.remote_queue ≡ []
        → Answers others o l o' got

  -- The first try is made on the slab as it was or with all waiting frees made. A block that the slab then
  -- serves is the answer. Where it refuses, every free request that waits in the queue after
  -- other threads have acted is made on the slab, once and in order, the queue is empty, and the answer
  -- is what the slab then answers; so a refusal is the slab's own with no request left waiting.
  pub allocate-Answers :
      (others : SlabOwner S → SlabOwner S) (o : SlabOwner S) (t : Turn) (l : NonZeroLayout)
      → Answers others o l (allocate al w others o t l).0 (allocate al w others o t l).1
  unfolding allocate slab_allocate
  allocate-Answers others o t l =
      let before : SlabOwner S = maybe_drain al w o t in
      elim (Option-cases (al.allocate before.slab l).1) [
        | inr (b, served) ↦
            let same : allocate al w others o t l
                ≡ (record before { slab = (al.allocate before.slab l).0 }, some b) =
              ground (arith, served) in
            subst (λ (x : SlabOwner S × Option Block). Answers others o l x.0 x.1) (sym same)
              (Answers.at_first before b (maybe_drain-cases o t) refl
                (ap (λ (g : Option Block). ((al.allocate before.slab l).0, g)) served) refl)
        | inl full ↦
            let tried : S = (al.allocate before.slab l).0 in
            let waiting : SlabOwner S = others (record before { slab = tried }) in
            let d : Emptied waiting (drain al waiting) = drain-Emptied waiting in
            let same : allocate al w others o t l ≡ slab_allocate al (drain al waiting) l =
              ground (arith, full) in
            subst (λ (x : SlabOwner S × Option Block). Answers others o l x.0 x.1) (sym same)
              (Answers.after_drain before tried (drain al waiting).slab (maybe_drain-cases o t)
                (ap (λ (g : Option Block). (tried, g)) full) d.freed refl d.queue)
      ]
