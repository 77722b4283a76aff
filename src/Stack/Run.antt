-- ===== src/Stack/Run.antt =====
-- Runs of a stack allocator under callers who free any address in any order.
use forge_alloc.Base.{
  ℕ, ◌+◌, ◌-◌, ◌^◌, ◌≤◌, ◌<◌, ◌≡◌, refl, sym, subst, ap, ◌∙◌, arith, inl, inr, Bool, true, false,
  none, some, List, [], ◌∷◌, ◌==◌, ==_iff, Bool-cases, if◌then◌else◌,
}
use forge_alloc.Word.Defs.{wrapping_sub}
use forge_alloc.Word.Align.{IsAlign}
use forge_alloc.Core.Layout.{NonZeroLayout}
use forge_alloc.Core.Range.{FixedRange, IsFixed, Block}
use forge_alloc.Stack.{StackAlloc, pop, new, with_max_depth, deallocate, allocate}
use forge_alloc.Stack.Frames.{
  IsStacked, blocks, offset_iff, IsValid, Pushed, allocate-Pushed, allocate_refused,
}

pub record State (B : Type 0) : Type 0 where
  pub stack : StackAlloc B
  pub live : List Block

-- The specification of a free: the last block goes, if it is the one that is named.
abbrev pub drop_top : ℕ → List Block → List Block
drop_top ptr [] = []
drop_top ptr (b ∷ rest) = if b.address == ptr then rest else b ∷ rest

block_eq :
    (b : Block) {a n : ℕ} → b.address ≡ a → b.length ≡ n → b ≡ record { address = a; length = n }
block_eq b ea en = ground (arith, ea, en)

pushed-blocks :
    (b : Block) (base base' cursor cursor' : ℕ) (frames : List (ℕ × ℕ)) {frames' : List (ℕ × ℕ)}
    → base' ≡ base
    → frames' ≡ (b.address - base, cursor) ∷ frames
    → base + cursor ≤ b.address
    → base' + cursor' ≡ b.address + b.length
    → b ∷ blocks base cursor frames ≡ blocks base' cursor' frames'
pushed-blocks b base base' cursor cursor' frames eb ef after ends =
    let top : Block = record {
      address = base' + (b.address - base);
      length = cursor' - (b.address - base);
    } in
    rw ef (
      ap (λ (c : Block). c ∷ blocks base cursor frames)
        (block_eq b {a = top.address} {n = top.length} (omega (arith, eb, after))
          (omega (arith, ends, eb, after)))
      ∙ ap (λ (t : ℕ). top ∷ blocks t cursor frames) (sym eb))

module _ (w : ℕ) {B : Type 0} (r : FixedRange B) where
  -- A caller asks for valid layouts; what it frees is any address at all.
  pub data Step (x y : State B) : Type 0 where
    allocates :
        (l : NonZeroLayout) (b : Block)
        → IsAlign w l.align
        → 1 ≤ l.size
        → allocate w r x.stack l ≡ (y.stack, some b)
        → y.live ≡ b ∷ x.live
        → Step x y
    fails :
        (l : NonZeroLayout) → allocate w r x.stack l ≡ (y.stack, none) → y.live ≡ x.live → Step x y
    frees :
        (ptr : ℕ) (l : NonZeroLayout)
        → ptr < 2 ^ w
        → deallocate w r x.stack ptr l ≡ y.stack
        → y.live ≡ drop_top ptr x.live
        → Step x y

  pub data Reach (x : State B) : State B → Type 0 where
    here : Reach x x
    next : {y z : State B} → Reach x y → Step y z → Reach x z

  -- The live blocks are those of the frames, and the frames lie one above the other in the region.
  pub record Sound (x : State B) : Type 0 where
    pub valid : IsValid w r x.stack
    pub live : x.live ≡ blocks (r.base x.stack.backing) x.stack.cursor x.stack.frames

  -- What a free of any address does to the frames.
  pub record Popped (s : StackAlloc B) (ptr : ℕ) (s' : StackAlloc B) : Type 0 where
    pub backing : s'.backing ≡ s.backing
    pub capacity : s'.capacity ≡ s.capacity
    pub below : s'.cursor ≤ s.cursor
    pub stacked : IsStacked s'.cursor s'.frames
    pub blocks :
        drop_top ptr (blocks (r.base s.backing) s.cursor s.frames)
        ≡ blocks (r.base s.backing) s'.cursor s'.frames

  pop-Popped :
      (s : StackAlloc B) (ptr : ℕ) (frames : List (ℕ × ℕ))
      → ptr < 2 ^ w
      → r.base s.backing + s.cursor < 2 ^ w
      → IsStacked s.cursor frames
      → Popped
          (record s { frames = frames })
          ptr
          (pop (record s { frames = frames }) (wrapping_sub w ptr (r.base s.backing)) frames)
  unfolding pop
  pop-Popped s ptr [] hp ho h = record {
    backing = refl;
    capacity = refl;
    below = omega arith;
    stacked = h;
    blocks = refl;
  }
  pop-Popped s ptr ((top, prev) ∷ rest) hp ho h =
      let iff = offset_iff w (r.base s.backing) ptr top hp (omega (arith, h.1)) in
      elim (Bool-cases (top == wrapping_sub w ptr (r.base s.backing))) [
        | inl same ↦
            let named : r.base s.backing + top == ptr ≡ true =
              (==_iff (r.base s.backing + top) ptr).1
                (iff.0 ((==_iff top (wrapping_sub w ptr (r.base s.backing))).0 same)) in
            rw same (record {
              backing = refl;
              capacity = refl;
              below = omega (arith, h.0, h.1);
              stacked = h.2;
              blocks = rw named refl;
            })
        | inr other ↦
            let unnamed : r.base s.backing + top == ptr ≡ false = ground (arith, other, iff) in
            rw other (record {
              backing = refl;
              capacity = refl;
              below = omega arith;
              stacked = h;
              blocks = rw unnamed refl;
            })
      ]

  -- A free of any address of `w` bits, the address of the last block or another, drops exactly the last
  -- block if it is the one named and changes nothing otherwise; the frames stay stacked.
  pub deallocate-Popped :
      (s : StackAlloc B) (ptr : ℕ) (l : NonZeroLayout)
      → ptr < 2 ^ w
      → IsValid w r s
      → Popped s ptr (deallocate w r s ptr l)
  unfolding deallocate
  deallocate-Popped s ptr l hp v =
      pop-Popped s ptr s.frames hp (omega (arith, v.inside, v.below)) v.stacked

  module _ (fixed : IsFixed r) where
    Step-Sound : (x y : State B) → Step x y → Sound x → Sound y
    Step-Sound x y (allocates l b al pos e live) h =
        let p : Pushed w r x.stack l y.stack b =
          allocate-Pushed w r fixed x.stack h.valid l al pos e in
        record {
          valid = p.valid;
          live =
              live
              ∙ ap (λ (bs : List Block). b ∷ bs) h.live
              ∙ pushed-blocks b (r.base x.stack.backing) (r.base y.stack.backing) x.stack.cursor
                  y.stack.cursor x.stack.frames p.base p.frames p.after p.ends;
        }
    Step-Sound x y (fails l e live) h =
        let (v, c, f, b) = allocate_refused w r fixed x.stack h.valid l e in
        record { valid = v; live = rw (live, c, f, b) h.live }
    Step-Sound x y (frees ptr l hp e live) h =
        let p : Popped x.stack ptr y.stack =
          subst (Popped x.stack ptr) e (deallocate-Popped x.stack ptr l hp h.valid) in
        record {
          valid = record {
            covers = omega (arith, p.capacity, h.valid.covers, ap r.size p.backing);
            inside = omega (arith, p.capacity, h.valid.inside, ap r.base p.backing);
            below = omega (arith, p.below, p.capacity, h.valid.below);
            stacked = p.stacked;
          };
          live =
              live
              ∙ ap (drop_top ptr) h.live
              ∙ p.blocks
              ∙ ap (λ (c : ℕ). blocks c y.stack.cursor y.stack.frames) (sym (ap r.base p.backing));
        }

    Reach-Sound : {x y : State B} → Sound x → Reach x y → Sound y
    Reach-Sound h here = h
    Reach-Sound h (next {y = y} {z = z} q st) = Step-Sound y z st (Reach-Sound h q)

    fresh-Sound :
        (reserves : ℕ → Bool) (backing : B) (x : StackAlloc B)
        → r.base backing + r.size backing < 2 ^ w
        → new w r reserves backing ≡ some x
        → Sound (record { stack = x; live = [] })
    unfolding new with_max_depth
    fresh-Sound reserves backing x room made = elim (Bool-cases (r.size backing == 0)) [
      | inl nothing ↦ absurd (ground (arith, made, nothing))
      | inr space ↦
          let eq : record { backing = backing; capacity = r.size backing; cursor = 0; frames = [] }
              ≡ x =
            ground (arith, made, space) in
          subst (λ (z : StackAlloc B). Sound (record { stack = z; live = [] })) eq
            (record {
              valid = record { covers = refl; inside = room; below = omega arith; stacked = refl };
              live = refl;
            })
    ]

    -- Over a backing that ends below the top of the address space, after every run of allocations and of
    -- frees of any addresses in any order, from a new stack: the live blocks, where a free drops the
    -- last one if that is the one named, are the blocks of the frames, which lie one above the other
    -- below the cursor.
    pub new-Reach-Sound :
        (reserves : ℕ → Bool) (backing : B) (s : StackAlloc B) {y : State B}
        → r.base backing + r.size backing < 2 ^ w
        → new w r reserves backing ≡ some s
        → Reach (record { stack = s; live = [] }) y
        → Sound y
    new-Reach-Sound reserves backing s room e q =
        Reach-Sound (fresh-Sound reserves backing s room e) q
