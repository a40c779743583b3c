-- ===== src/Smart/Macros.antt =====
-- `string_op_grow!` and `string_op_shrink!` of ops.rs, and what they need of lib.rs: `try_demote`,
-- `promote_from`, and `drop`.
pub mod Grow
pub mod Sizes
pub mod Shrink
pub mod Breaks
pub mod Splits
use smartstring.Prelude.{ℕ, Bool, true, false, List, Option, none, some, ltb, if◌then◌else◌, length}
use smartstring.Run.{
  Run, M, done, panicked, pure, panic, unwrap, ◌>>=◌, ◌>>◌, and_then, map_state, on_second,
}
use smartstring.Inline
use smartstring.Inline.{InlineString, max_inline}
use smartstring.Inline.Wf as InlineWf
use smartstring.Heap.{Heap, Allocator}
use smartstring.Boxed
use smartstring.Boxed.{BoxedString}
use smartstring.Boxed.Wf as BoxedWf
use smartstring.Ops.{GrowOp, ShrinkOp}
use smartstring.Smart.{
  SmartString, Mode, dealloc, StringCast, boxed, inline, cast, from_boxed, from_inline,
}

-- A method has the string and the heap for its state.
abbrev pub Method : Type 0 → Type 0
Method A = M (SmartString × Heap) A

module _ (a : Allocator) where
  drop_cast : StringCast → M Heap (Unit {0})
  drop_cast (boxed b) = Boxed.drop a b
  drop_cast (inline i) = pure tt

  -- `impl Drop`
  pub drop : SmartString → M Heap (Unit {0})
  unfolding drop_cast
  drop s = drop_cast (cast s)

  module _ {A : Type 0} (o : GrowOp A) where
    -- The operation on a string that is not yet the target's: if it panics, the new string is
    -- dropped, and the target is as it was.
    pub promoted : SmartString → Run (BoxedString × Heap) A → Run (SmartString × Heap) A
    promoted s (done x (b, h)) = done x (from_boxed b, h)
    promoted s (panicked (b, h)) =
        and_then (map_state (λ h'. (s, h')) (Boxed.drop a b h)) (λ _. panic)
    promoted s r = map_state (λ (b, h). (s, h)) r

    pub grow_boxed : BoxedString → Option ℕ → Method A
    grow_boxed b none = panic
    grow_boxed b (some target) = do
      b' ← on_second (Boxed.ensure_capacity a b target)
      λ (s, h). map_state (λ c. (from_boxed c, h)) (o.op BoxedString BoxedWf.generic b')

    pub grow_inline : InlineString → Option ℕ → Method A
    grow_inline i none = panic
    grow_inline i (some new_size) =
        if ltb max_inline new_size
        then (do
          new_str ← on_second (Boxed.from_str a new_size (Inline.deref i))
          λ (s, h). promoted s (map_state (λ c. (c, h)) (o.op BoxedString BoxedWf.generic new_str)))
        else λ (s, h). map_state (λ c. (from_inline c, h)) (o.op InlineString InlineWf.generic i)

    pub grow_cast : StringCast → Method A
    grow_cast (boxed b) = grow_boxed b (o.cap BoxedString BoxedWf.generic b)
    grow_cast (inline i) = grow_inline i (o.cap InlineString InlineWf.generic i)

    pub string_op_grow : Method A
    unfolding grow_boxed grow_inline grow_cast promoted
    string_op_grow (s, h) = grow_cast (cast s) (s, h)

  demote_cast : StringCast → Method Bool
  demote_cast (inline i) = pure true
  demote_cast (boxed b) = if ltb max_inline (length (Boxed.deref b)) then pure false else (do
    inlined ← unwrap (Inline.from_str (Boxed.deref b))
    on_second (Boxed.drop a b)
    λ (s, h). done true (from_inline inlined, h))

  pub really_try_demote : Method Bool
  unfolding demote_cast
  really_try_demote (s, h) = demote_cast (cast s) (s, h)

  module _ (m : Mode) where
    pub try_demote : Method Bool
    try_demote = if dealloc m then really_try_demote else pure false

    module _ {A : Type 0} (o : ShrinkOp A) where
      shrink_cast : StringCast → Method A
      shrink_cast (boxed b) (s, h) =
          map_state (λ (c, h'). (from_boxed c, h')) (o.op BoxedString BoxedWf.generic (b, h))
      shrink_cast (inline i) (s, h) =
          map_state (λ (c, h'). (from_inline c, h')) (o.op InlineString InlineWf.generic (i, h))

      pub string_op_shrink : Method A
      unfolding shrink_cast
      string_op_shrink = do
        result ← (λ (s, h). shrink_cast (cast s) (s, h))
        _ ← try_demote
        pure result
