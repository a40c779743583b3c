-- ===== src/Smart/Macros/Breaks.antt =====
-- `string_op_shrink!` where the operation panics midway: the string is left as the operation left it.
use smartstring.Inline.{InlineString}
use smartstring.Smart.Cast.{
  is_inline-from_inline, cast-from_inline, is_inline-from_boxed, cast-from_boxed,
}
use smartstring.Boxed.{BoxedString}
use smartstring.Ops.Splice.{Breaks}
use smartstring.Ops.{ShrinkOp}
use smartstring.Smart.{from_inline, cast, from_boxed, is_inline, SmartString, Mode}
use smartstring.Smart.Macros.{shrink_cast, string_op_shrink}
use smartstring.Prelude.{ℕ, ◌≡◌, ◌∙◌, refl, sym, ap, List, arith, length}
use smartstring.Run.{panicked}
use smartstring.Heap.{Heap, Allocator}
use smartstring.Inline.Wf as InlineWf
use smartstring.Boxed.Wf as BoxedWf
use smartstring.Smart.Rep.{
  Inlined-is_inline, Holds-Inlined, Inlined-length, Inlined-Room, Stored-is_inline, Holds-Stored,
  Stored-Room, Rep, stored, inlined,
}

pub string_op_shrink-Breaks :
    (a : Allocator) (m : Mode) {A : Type 0} (o : ShrinkOp A) (rest : Heap) (text text' : List ℕ)
    → Breaks o text text'
    → (s : SmartString) (h : Heap) → Rep rest text s h
    → (s' : SmartString) × (string_op_shrink a m o (s, h) ≡ panicked (s', h))
      × Rep rest text' s' h
      × (is_inline s' ≡ is_inline s)
unfolding string_op_shrink shrink_cast
string_op_shrink-Breaks a m o rest text text' breaks s h (stored b e st) =
    let (c, run, held) = breaks BoxedString BoxedWf.generic b h st.wf st.text_eq (
      Stored-Room st (length text)
        (omega (arith, ap length st.text_eq, BoxedWf.length-deref b st.wf, st.wf.fits))) in
    (
      from_boxed c,
      rw (ap cast e ∙ cast-from_boxed b st.wf, run) refl,
      stored c refl (Holds-Stored st held),
      is_inline-from_boxed c held.wf ∙ sym (Stored-is_inline b e st),
    )
string_op_shrink-Breaks a m o rest text text' breaks s h (inlined i e w same) =
    let (c, run, held) =
      breaks InlineString InlineWf.generic i h w.wf w.text_eq
        (Inlined-Room w (length text) (Inlined-length w)) in
    (
      from_inline c,
      rw (ap cast e ∙ cast-from_inline i w.wf, run) refl,
      inlined c refl (Holds-Inlined held) same,
      is_inline-from_inline c held.wf ∙ sym (Inlined-is_inline i e w),
    )
