-- ===== src/Smart/Macros/Sizes.antt =====
-- `string_op_grow!` for a text of any size that the address space can count.
use smartstring.Heap.Succeeds.{always}
use smartstring.Prelude.{
  ℕ, ◌≡◌, ap, inl, inr, true, false, ◌&&◌, List, arith, ltb, leb, Bool-cases, length,
}
use smartstring.Heap.{Heap, Allocator}
use smartstring.Heap.Settles
use smartstring.Heap.Settles.{Settles, settled}
use smartstring.Inline
use smartstring.Inline.{InlineString, max_inline}
use smartstring.Inline.Wf as InlineWf
use smartstring.Boxed.{BoxedString}
use smartstring.Boxed.Wf as BoxedWf
use smartstring.Boxed.Blocks.{Stored}
use smartstring.Boxed.Sizes.{ensure_capacity-Settles, from_str-Settles}
use smartstring.Ops.{GrowOp}
use smartstring.Ops.Splice.{Grows}
use smartstring.Smart.{SmartString, boxed, inline, from_boxed, from_inline, is_inline}
use smartstring.Smart.Cast.{
  cast-from_boxed, cast-from_inline, is_inline-from_boxed, is_inline-from_inline,
}
use smartstring.Smart.Rep.{Rep, Stored-text, inlined, stored, Inlined-length}
use smartstring.Smart.Macros.{string_op_grow, grow_cast, grow_boxed, grow_inline}
use smartstring.Smart.Macros.Grow.{Post, stays, applied-Post, promoted-Post}

module _ (a : Allocator) {A : Type 0} (o : GrowOp A) (rest : Heap) (text text' : List ℕ) (x : A)
    (g : Grows o text text' x) where
  on_boxed :
      (b : BoxedString) (s : SmartString) (h : Heap)
      → Stored rest text b h
      → Settles a (s, h) (Post rest text' x false) (grow_cast a o (boxed b) (s, h))
  unfolding grow_cast grow_boxed
  on_boxed b s h st = rw (g.needs BoxedString BoxedWf.generic b st.wf st.text_eq) (
      Settles.bind_map a (λ h'. (s, h')) _
        (ensure_capacity-Settles a rest b h (length text') st.wf st.owned)
        λ b' h' (st', enough).
          applied-Post a o rest text text' x g b' h' (Stored-text st st') enough)

  promotes :
      (i : InlineString) (s : SmartString)
      → InlineWf.Inlined text i
      → ltb max_inline (length text') ≡ true
      → Settles a (s, rest) (Post rest text' x false) (grow_cast a o (inline i) (s, rest))
  unfolding grow_cast grow_inline
  promotes i s w more =
      rw (g.needs InlineString InlineWf.generic i w.wf w.text_eq, more)
        (Settles.bind_map a (λ h'. (s, h')) _
          (from_str-Settles a rest (length text') (Inline.deref i)
            (omega (arith, ap length w.text_eq, Inlined-length w)))
          λ b' h' (st', room).
            promoted-Post a o rest text text' x g s b' h' (rw w.text_eq at st')
              (omega (arith, room)))

  -- For an operation that turns the text into a new text, of whatever size, on every string with
  -- the room: on a string of either form the macro's behaviour is defined. It returns the
  -- operation's result with the new text in the string, which owns its block and no other; or it
  -- panics with the string and the heap unchanged; or the allocator has answered null; or the loop
  -- of ensure_capacity does not end.
  pub string_op_grow-Settles :
      (s : SmartString) (h : Heap)
      → Rep rest text s h
      → Settles a
          (s, h)
          (Post rest text' x (is_inline s && leb (length text') max_inline))
          (string_op_grow a o (s, h))
  unfolding string_op_grow
  string_op_grow-Settles s h (stored b e st) =
      rw (e, cast-from_boxed b st.wf, is_inline-from_boxed b st.wf) (on_boxed b (from_boxed b) h st)
  string_op_grow-Settles s h (inlined i e w same) =
      rw (e, same, cast-from_inline i w.wf, is_inline-from_inline i w.wf)
        (elim (Bool-cases (ltb max_inline (length text'))) [
          | inl more ↦
              let big : leb (length text') max_inline ≡ false = ground arith in
              rw big (promotes i (from_inline i) w more)
          | inr fits ↦
              let small : leb (length text') max_inline ≡ true = ground arith in
              rw small (settled a (always (stays a o rest text text' x g i (from_inline i) w fits)))
        ])
