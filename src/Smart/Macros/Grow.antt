-- ===== src/Smart/Macros/Grow.antt =====
-- `string_op_grow!` on either kind of string: the operation's result and text, and when the string
-- moves to the heap.
use smartstring.Prelude.{
  ◌≤◌, ℕ, ◌<◌, ◌≡◌, refl, ap, Bool, true, false, ◌&&◌, List, arith, length, ltb, leb, Bool-cases,
  inl, inr,
}
use smartstring.Run.{panicked, map_state}
use smartstring.Request.{Request}
use smartstring.Heap.{Heap, Allocator}
use smartstring.Heap.Succeeds
use smartstring.Heap.Succeeds.{Succeeds, Ends, Returns, always, returns}
use smartstring.Inline.{InlineString, max_inline}
use smartstring.Inline as Inline
use smartstring.Inline.Wf as InlineWf
use smartstring.Boxed.{BoxedString}
use smartstring.Boxed.Wf as BoxedWf
use smartstring.Boxed.Grow.{request_limit}
use smartstring.Boxed.Blocks.{Stored, from_str-Stored}
use smartstring.Boxed.Texts.{ensure_capacity-Stored}
use smartstring.Ops.{GrowOp}
use smartstring.Ops.Splice.{Grows, Refuses}
use smartstring.Smart.{SmartString, boxed, inline, from_boxed, from_inline, is_inline}
use smartstring.Smart.Cast.{
  cast-from_boxed, cast-from_inline, is_inline-from_boxed, is_inline-from_inline,
}
use smartstring.Smart.Rep.{
  Rep, Stored-text, inlined, stored, Stored-is_inline, inline-heap, Holds-Inlined, Holds-Stored,
  Inlined-length, Inlined-Room, Stored-Room,
}
use smartstring.Smart.Macros.{string_op_grow, grow_cast, grow_boxed, grow_inline, promoted}

-- The call returned `x`, the string holds `text`, and it is inline as `where` says.
pub record Post {A : Type 0} (rest : Heap) (text : List ℕ) (x : A) (inside : Bool) (y : A)
    (p : SmartString × Heap) : Type 0 where
  pub result : y ≡ x
  pub rep : Rep rest text p.0 p.1
  pub place : is_inline p.0 ≡ inside

module _ (a : Allocator) {A : Type 0} (o : GrowOp A) (rest : Heap) (text text' : List ℕ) (x : A)
    (g : Grows o text text' x) where
  -- The operation, on a boxed string that has room for the new text.
  pub applied-Post :
      {E : Request → Type 0} (b : BoxedString) (h : Heap)
      → Stored rest text b h
      → length text' ≤ b.cap
      → Ends E
          (Post rest text' x false)
          (map_state (λ c. (from_boxed c, h)) (o.op BoxedString BoxedWf.generic b))
  applied-Post b h st room =
      let (c, run, held) =
        g.leaves BoxedString BoxedWf.generic b st.wf st.text_eq
          (Stored-Room st (length text') room) in
      rw run (
        returns (record {
          result = refl;
          rep = stored c refl (Holds-Stored st held);
          place = is_inline-from_boxed c held.wf;
        }))

  -- The same on the copy that an inline string is promoted to.
  pub promoted-Post :
      {E : Request → Type 0} (s : SmartString) (b : BoxedString) (h : Heap)
      → Stored rest text b h
      → length text' ≤ b.cap
      → Ends E
          (Post rest text' x false)
          (promoted a o s (map_state (λ c. (c, h)) (o.op BoxedString BoxedWf.generic b)))
  unfolding promoted
  promoted-Post s b h st room =
      let (c, run, held) =
        g.leaves BoxedString BoxedWf.generic b st.wf st.text_eq
          (Stored-Room st (length text') room) in
      rw run (
        returns (record {
          result = refl;
          rep = stored c refl (Holds-Stored st held);
          place = is_inline-from_boxed c held.wf;
        }))

  pub stays :
      (i : InlineString) (s : SmartString)
      → InlineWf.Inlined text i
      → ltb max_inline (length text') ≡ false
      → Returns (Post rest text' x true) (grow_cast a o (inline i) (s, rest))
  unfolding grow_cast grow_inline
  stays i s w fits =
      let (c, run, held) =
        g.leaves InlineString InlineWf.generic i w.wf w.text_eq
          (Inlined-Room w (length text') (ground arith)) in
      rw (g.needs InlineString InlineWf.generic i w.wf w.text_eq, fits, run)
        (returns (record {
          result = refl;
          rep = inlined c refl (Holds-Inlined held) refl;
          place = is_inline-from_inline c held.wf;
        }))

module _ (a : Allocator) {A : Type 0} (o : GrowOp A) (rest : Heap) (text text' : List ℕ) (x : A)
    (g : Grows o text text' x) (lim : length text' < request_limit) where
  on_boxed :
      (b : BoxedString) (s : SmartString) (h : Heap)
      → Stored rest text b h
      → Succeeds a (Post rest text' x false) (grow_cast a o (boxed b) (s, h))
  unfolding grow_cast grow_boxed
  on_boxed b s h st = rw (g.needs BoxedString BoxedWf.generic b st.wf st.text_eq) (
      Succeeds.bind_map (λ h'. (s, h')) _
        (ensure_capacity-Stored a rest b h (length text') st.wf st.owned lim)
        λ b' h' (st', grown).
          applied-Post a o rest text text' x g b' h' (Stored-text st st') grown.enough)

  promotes :
      (i : InlineString) (s : SmartString)
      → InlineWf.Inlined text i
      → ltb max_inline (length text') ≡ true
      → Succeeds a (Post rest text' x false) (grow_cast a o (inline i) (s, rest))
  unfolding grow_cast grow_inline
  promotes i s w more =
      rw (g.needs InlineString InlineWf.generic i w.wf w.text_eq, more)
        (Succeeds.bind_map (λ h'. (s, h')) _
          (from_str-Stored a rest (length text') (Inline.deref i) (omega (arith))
            (omega (arith, ap length w.text_eq, Inlined-length w)))
          λ b' h' (st', room).
            promoted-Post a o rest text text' x g s b' h' (rw w.text_eq at st')
              (omega (arith, room)))

  -- For an operation that turns the text into a new text below 2^62 bytes on every string with the
  -- room: on a string of either form, unless the allocator answers null, the macro returns the
  -- operation's result, the string holds the new text and owns its block and no other, and it is
  -- inline exactly when it was inline and the new text fits.
  pub string_op_grow-Post :
      (s : SmartString) (h : Heap)
      → Rep rest text s h
      → Succeeds a
          (Post rest text' x (is_inline s && leb (length text') max_inline))
          (string_op_grow a o (s, h))
  unfolding string_op_grow
  string_op_grow-Post s h (stored b e st) =
      rw (e, cast-from_boxed b st.wf, is_inline-from_boxed b st.wf) (on_boxed b (from_boxed b) h st)
  string_op_grow-Post s h (inlined i e w same) =
      rw (e, same, cast-from_inline i w.wf, is_inline-from_inline i w.wf)
        (elim (Bool-cases (ltb max_inline (length text'))) [
          | inl more ↦
              let big : leb (length text') max_inline ≡ false = ground arith in
              rw big (promotes i (from_inline i) w more)
          | inr fits ↦
              let small : leb (length text') max_inline ≡ true = ground arith in
              rw small (always (stays a o rest text text' x g i (from_inline i) w fits))
        ])

-- The call returned `x`, the string is inline and holds `text`, and the heap is `h`.
pub record Kept {A : Type 0} (h : Heap) (text : List ℕ) (x : A) (y : A) (p : SmartString × Heap)
    : Type 0 where
  pub result : y ≡ x
  pub rep : Rep h text p.0 p.1
  pub place : is_inline p.0 ≡ true
  pub heap : p.1 ≡ h

-- For an operation that turns the text into a new text of at most 23 bytes on every string with
-- the room: on an inline string the macro returns, whatever the allocator answers, with the
-- operation's result; the string is inline and holds the new text, and the heap is as before.
pub string_op_grow-Kept :
    (a : Allocator) {A : Type 0} (o : GrowOp A) (text text' : List ℕ) (x : A)
    → Grows o text text' x
    → length text' ≤ max_inline
    → (s : SmartString) (h : Heap) → Rep h text s h
    → is_inline s ≡ true
    → Returns (Kept h text' x) (string_op_grow a o (s, h))
unfolding string_op_grow
string_op_grow-Kept a o text text' x g fits s h (stored b e st) here = cc (Stored-is_inline b e st)
string_op_grow-Kept a o text text' x g fits s h (inlined i e w same) here =
    let small : ltb max_inline (length text') ≡ false = ground arith in
    rw (e, cast-from_inline i w.wf)
      (Succeeds.mono (stays a o h text text' x g i (from_inline i) w small) λ y p post. record {
        result = post.result;
        rep = post.rep;
        place = post.place;
        heap = inline-heap post.rep post.place;
      })

-- When the assertions of the operation refuse the text, the macro panics with the string and the
-- heap unchanged.
pub string_op_grow-panics :
    (a : Allocator) {A : Type 0} (o : GrowOp A) (rest : Heap) (text : List ℕ)
    → Refuses o text
    → (s : SmartString) (h : Heap) → Rep rest text s h
    → string_op_grow a o (s, h) ≡ panicked (s, h)
unfolding string_op_grow grow_cast grow_boxed grow_inline
string_op_grow-panics a o rest text r s h (stored b e st) =
    rw (e, cast-from_boxed b st.wf, r BoxedString BoxedWf.generic b st.text_eq)
string_op_grow-panics a o rest text r s h (inlined i e w same) =
    rw (e, cast-from_inline i w.wf, r InlineString InlineWf.generic i w.text_eq)
