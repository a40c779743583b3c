-- ===== src/Model/Refines.antt =====
-- A `SmartString` answers each action as the `String` that is its control does.
use smartstring.Prelude.{
  ℕ, ◌+◌, ◌-◌, ◌<◌, inl, inr, List, [], ◌++◌, none, some, arith, length, take, drop, ltb,
  Bool-cases, length-append, length-take_le,
}
use smartstring.Heap.{Heap, Allocator}
use smartstring.Heap.Succeeds.{always}
use smartstring.Utf8.{IsUtf8, encode_utf8, len_utf8, is_char_boundary}
use smartstring.Utf8.Laws.{boundary_le}
use smartstring.Utf8.Boundary.{IsUtf8-drop}
use smartstring.Boxed.Grow.{request_limit}
use smartstring.Ops.Splice.{splice}
use smartstring.Ops.InsertBytes.{length-splice}
use smartstring.Smart.{SmartString, Mode, is_inline}
use smartstring.Smart.Rep.{Rep}
use smartstring.Smart.Methods
use smartstring.Smart.Methods.Laws.{push_str-Post, push-Post, clear-Post}
use smartstring.Smart.Methods.Inserts.{insert-Post, insert_str-Post}
use smartstring.Smart.Methods.Cuts.{
  truncate-Post, truncate_beyond, pop-Post, pop_empty, remove-Post,
}
use smartstring.Smart.Methods.Panics.{
  truncate-panics, remove-panics, insert-panics, insert_str-panics,
}
use smartstring.Model.{
  slice, split_off, into_string, retain, drain, Action, control, control_pop, control_remove, push,
  push_str, truncate, pop, remove, insert, insert_str, clear, replace_range, maybe_char, char,
  nothing, perform,
}
use smartstring.Model.Answers.{
  growth, Agrees, answered, grown-IsTight, shrunk-IsTight, reply-panics,
}
use smartstring.Model.Ranges.{Agrees-slice, Agrees-drain, Agrees-range}
use smartstring.Model.Parts.{Agrees-split_off, Agrees-into_string, Agrees-retain}
use smartstring.Model.Texts.{last_char-Ends, first_char-Begins, Ends-fits, Begins-fits}

module _ (a : Allocator) (rest : Heap) (m : Mode) (s : SmartString) (h : Heap) where
  module _ (text : List ℕ) (r : Rep rest text s h) where
    Agrees-truncate :
        (n : ℕ)
        → Agrees a rest m s h text (control (truncate n) text) (perform a m (truncate n) (s, h))
    unfolding control perform
    Agrees-truncate n = elim (Bool-cases (ltb n (length text))) [
      | inl shorter ↦ elim (Bool-cases (is_char_boundary text n)) [
        | inl b ↦
            rw (shorter, b)
              (answered a rest m s h text (take n text) tt (λ _. nothing) (Methods.truncate a m n)
                (shrunk-IsTight m (is_inline s) text (take n text) (
                  omega
                    (arith, boundary_le text n b, length-take_le n text (boundary_le text n b))))
                (always (truncate-Post a m rest text s h r n (ground arith) b)))
        | inr off ↦
            rw (shorter, off)
              (reply-panics s h (λ _. nothing) (Methods.truncate a m n)
                (truncate-panics a m rest text s h r n (ground arith) off))
      ]
      | inr longer ↦ rw longer (
          answered a rest m s h text text tt (λ _. nothing) (Methods.truncate a m n)
            (shrunk-IsTight m (is_inline s) text text (omega arith))
            (always (truncate_beyond a m rest text s h r n (ground arith))))
    ]

    Agrees-pop : IsUtf8 text → Agrees a rest m s h text (control pop text) (perform a m pop (s, h))
    unfolding control control_pop perform
    Agrees-pop u = elim (last_char-Ends text u) [
      | inl (nil, last) ↦ rw last (
          answered a rest m s h text text none maybe_char (Methods.pop a m)
            (shrunk-IsTight m (is_inline s) text text (omega arith))
            (always (pop_empty a m rest text s h r last)))
      | inr (e, last) ↦
          let n = length text - len_utf8 e.ch in
          rw last (
            answered a rest m s h text (take n text) (some e.ch) maybe_char (Methods.pop a m)
              (shrunk-IsTight m (is_inline s) text (take n text)
                (omega (arith, length-take_le n text (omega arith))))
              (always (pop-Post a m rest text s h r e.ch last (Ends-fits text e))))
    ]

    Agrees-remove :
        IsUtf8 text
        → (index : ℕ)
        → Agrees a rest m s h text (control (remove index) text) (perform a m (remove index) (s, h))
    unfolding control control_remove perform
    Agrees-remove u index = elim (Bool-cases (is_char_boundary text index)) [
      | inl b ↦ elim (first_char-Begins (drop index text) (IsUtf8-drop text index b u)) [
        | inl (nil, first) ↦
            rw (b, first)
              (reply-panics s h char (Methods.remove a m index)
                (remove-panics a m rest text s h r index (inr (b, nil))))
        | inr (e, first) ↦
            let next = index + len_utf8 e.ch in
            let le = Begins-fits text index (boundary_le text index b) e in
            rw (b, first)
              (answered a rest m s h text (splice index next [] text) e.ch char
                (Methods.remove a m index)
                (shrunk-IsTight m (is_inline s) text (splice index next [] text)
                  (omega (arith, le, length-splice index next [] text (omega arith) le)))
                (always (remove-Post a m rest text s h r index e.ch b first le)))
      ]
      | inr off ↦ rw off (
          reply-panics s h char (Methods.remove a m index)
            (remove-panics a m rest text s h r index (inl off)))
    ]

    Agrees-insert :
        (index ch : ℕ)
        → length text + len_utf8 ch < request_limit
        → Agrees a rest m s h text
            (control (insert index ch) text)
            (perform a m (insert index ch) (s, h))
    unfolding control perform
    Agrees-insert index ch lim = elim (Bool-cases (is_char_boundary text index)) [
      | inl b ↦
          let text' = splice index index (encode_utf8 ch) text in
          let le = boundary_le text index b in
          rw b (
            answered a rest m s h text text' tt (λ _. nothing) (Methods.insert a index ch)
              (grown-IsTight m (is_inline s) text text' (
                omega
                  (arith, le, length-splice index index (encode_utf8 ch) text (omega arith) le)))
              (insert-Post a rest text s h r index b ch lim))
      | inr off ↦ rw off (
          reply-panics s h (λ _. nothing) (Methods.insert a index ch)
            (insert-panics a m rest text s h r index off ch))
    ]

    Agrees-insert_str :
        (index : ℕ) (string : List ℕ)
        → length text + length string < request_limit
        → Agrees a rest m s h text
            (control (insert_str index string) text)
            (perform a m (insert_str index string) (s, h))
    unfolding control perform
    Agrees-insert_str index string lim = elim (Bool-cases (is_char_boundary text index)) [
      | inl b ↦
          let text' = splice index index string text in
          let le = boundary_le text index b in
          rw b (
            answered a rest m s h text text' tt (λ _. nothing) (Methods.insert_str a index string)
              (grown-IsTight m (is_inline s) text text'
                (omega (arith, le, length-splice index index string text (omega arith) le)))
              (insert_str-Post a rest text s h r index b string lim))
      | inr off ↦ rw off (
          reply-panics s h (λ _. nothing) (Methods.insert_str a index string)
            (insert_str-panics a m rest text s h r index off string))
    ]

    -- For each of the fourteen actions of the property tests, in either mode: on a string that
    -- holds a valid UTF-8 text, with the grown text below 2^62 bytes, the run ends as the
    -- control's does. Where the control panics, the run panics and leaves the string and the heap
    -- as they were; otherwise, unless the allocator answers null, the reply is the control's, the
    -- string holds the control's new text and owns its block and no other, and in the eager mode
    -- it is inline exactly when its text fits if that was so before.
    pub perform-Agrees :
        IsUtf8 text
        → (action : Action) → length text + growth action < request_limit
        → Agrees a rest m s h text (control action text) (perform a m action (s, h))
    unfolding control perform
    perform-Agrees u (slice b) lim = Agrees-slice a rest m s h text r b (omega (arith, lim))
    perform-Agrees u (push ch) lim =
        answered a rest m s h text (text ++ encode_utf8 ch) tt (λ _. nothing) (Methods.push a ch)
          (grown-IsTight m (is_inline s) text (text ++ encode_utf8 ch)
            (omega (arith, length-append text (encode_utf8 ch))))
          (push-Post a rest text s h r ch lim)
    perform-Agrees u (push_str string) lim =
        answered a rest m s h text (text ++ string) tt (λ _. nothing) (Methods.push_str a string)
          (grown-IsTight m (is_inline s) text (text ++ string)
            (omega (arith, length-append text string)))
          (push_str-Post a rest text s h r string lim)
    perform-Agrees u (truncate n) lim = Agrees-truncate n
    perform-Agrees u pop lim = Agrees-pop u
    perform-Agrees u (remove index) lim = Agrees-remove u index
    perform-Agrees u (insert index ch) lim = Agrees-insert index ch lim
    perform-Agrees u (insert_str index string) lim = Agrees-insert_str index string lim
    perform-Agrees u (split_off index) lim =
        Agrees-split_off a rest m s h text r index (omega (arith, lim))
    perform-Agrees u clear lim =
        answered a rest m s h text [] tt (λ _. nothing) (Methods.clear a) (λ t eager. ground arith)
          (always (clear-Post a rest text s h r))
    perform-Agrees u into_string lim = Agrees-into_string a rest m s h text r
    perform-Agrees u (retain filter) lim = Agrees-retain a rest m s h text r u filter
    perform-Agrees u (drain b) lim = Agrees-drain a rest m s h text r u b (omega (arith, lim))
    perform-Agrees u (replace_range b src) lim = Agrees-range a rest m s h text r b src lim
