-- ===== src/Stack.antt =====
-- crates/forge-alloc/src/layout/stack_alloc.rs: `StackAlloc<B>`, the release build. The last frame of
-- the `Vec` stands first in the list; whether the `Vec` can reserve room, which the global allocator
-- decides, is the argument `reserves`. The push of a frame is taken to find memory.
pub mod Frames
pub mod Run
mod Tests
use forge_alloc.Base.{
  ℕ, ◌+◌, ◌-◌, Bool, true, not, Option, none, some, List, [], ◌∷◌, ltb, ◌==◌, ◌&&◌, if◌then◌else◌,
}
use forge_alloc.Word.Defs.{wrapping_sub}
use forge_alloc.Core.Layout.{NonZeroLayout}
use forge_alloc.Core.Range.{FixedRange, Block}
use forge_alloc.Cursor.{place}

-- A frame is the offset of its block and the cursor before the block.
pub record StackAlloc (B : Type 0) : Type 0 where
  pub backing : B
  pub capacity : ℕ
  pub cursor : ℕ
  pub frames : List (ℕ × ℕ)

module _ {B : Type 0} where
  unfoldable pub allocated : StackAlloc B → ℕ
  allocated s = s.cursor

  unfoldable pub remaining : StackAlloc B → ℕ
  remaining s = s.capacity - s.cursor

  -- `deallocate` of the offset `offset`, by the frames.
  unfoldable pub pop : StackAlloc B → ℕ → List (ℕ × ℕ) → StackAlloc B
  pop s offset [] = s
  pop s offset ((top, prev) ∷ rest) =
      if top == offset then record s { cursor = prev; frames = rest } else s

module _ (w : ℕ) {B : Type 0} (r : FixedRange B) where
  unfoldable pub with_max_depth : (ℕ → Bool) → B → ℕ → Option (StackAlloc B)
  with_max_depth reserves backing max_depth =
      if r.size backing == 0
      then none
      else if ltb 0 max_depth && not (reserves max_depth)
      then none
      else some (record { backing = backing; capacity = r.size backing; cursor = 0; frames = [] })

  unfoldable pub new : (ℕ → Bool) → B → Option (StackAlloc B)
  unfolding with_max_depth
  new reserves backing = with_max_depth reserves backing 0

  unfoldable pub deallocate : StackAlloc B → ℕ → NonZeroLayout → StackAlloc B
  unfolding pop
  deallocate s ptr l = pop s (wrapping_sub w ptr (r.base s.backing)) s.frames

  unfoldable pub allocate : StackAlloc B → NonZeroLayout → StackAlloc B × Option Block
  allocate s l = elim (place w (r.base s.backing) s.cursor s.capacity l) [
    | none ↦ (s, none)
    | some (offset, end) ↦
        let (b, done) = r.commit s.backing offset l.size in
        elim done [
          | none ↦ (record s { backing = b }, none)
          | some _ ↦ (
            record s { backing = b; cursor = end; frames = (offset, s.cursor) ∷ s.frames },
            some (record { address = r.base s.backing + offset; length = l.size }),
          )
        ]
  ]
