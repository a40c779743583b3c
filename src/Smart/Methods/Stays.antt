-- ===== src/Smart/Methods/Stays.antt =====
-- Strings that are inline and whose text stays at most 23 bytes long.
use smartstring.Prelude.{
  ℕ, ◌+◌, ◌≤◌, ◌≡◌, ◌∙◌, refl, ap, true, List, [], ◌∷◌, ◌++◌, arith, length, length-append,
  append_assoc, append-nil,
}
use smartstring.Heap.{Heap, Allocator}
use smartstring.Heap.Succeeds
use smartstring.Heap.Succeeds.{Succeeds, Returns, returns, gives_up}
use smartstring.Smart.Rep.{Rep, new-Rep, is_inline-new}
use smartstring.Smart.{SmartString, new, is_inline}
use smartstring.Smart.Macros.Grow.{Kept, string_op_grow-Kept}
use smartstring.Smart.Methods.{push, extend_chars, from_iter}
use smartstring.Smart.Methods.Extends.{local-Succeeds}
use smartstring.Ops.Push
use smartstring.Inline.{max_inline}
use smartstring.Utf8.{encode_utf8, encode, len_utf8}
use smartstring.Utf8.Boundary.{length-encode_cons, encode_cons, encode_nil}
use smartstring.Utf8.Laws.{length-encode_utf8}

module _ (a : Allocator) (h : Heap) where
  push-Kept :
      (text : List ℕ) (ch : ℕ) (s : SmartString)
      → Rep h text s h
      → is_inline s ≡ true
      → length text + len_utf8 ch ≤ max_inline
      → Returns (Kept h (text ++ encode_utf8 ch) tt) (push a ch (s, h))
  unfolding push
  push-Kept text ch s r here fits =
      string_op_grow-Kept a (Push.grow ch) text (text ++ encode_utf8 ch) tt
        (Push.grow-Grows ch text (omega arith))
        (omega (arith, length-append text (encode_utf8 ch), length-encode_utf8 ch)) s h r here

  extend_chars-Kept :
      (chars text : List ℕ) (s : SmartString)
      → Rep h text s h
      → is_inline s ≡ true
      → length text + length (encode chars) ≤ max_inline
      → Returns (Kept h (text ++ encode chars) tt) (extend_chars a chars (s, h))
  unfolding extend_chars
  extend_chars-Kept [] text s r here fits =
      let same : text ++ encode [] ≡ text = ap (λ t. text ++ t) encode_nil ∙ append-nil text in
      rw same (returns (record { result = refl; rep = r; place = here; heap = refl }))
  extend_chars-Kept (ch ∷ chars) text s r here fits =
      let room : length text + len_utf8 ch ≤ max_inline =
        omega (arith, length-encode_cons ch chars) in
      rw (encode_cons ch chars, ← append_assoc text (encode_utf8 ch) (encode chars))
        (Succeeds.bind (push-Kept text ch s r here room) λ _ p kept. rw kept.heap (
          extend_chars-Kept chars (text ++ encode_utf8 ch) p.0 (rw kept.heap at kept.rep) kept.place
            (omega (
              arith,
              length-encode_cons ch chars,
              length-append text (encode_utf8 ch),
              length-encode_utf8 ch,
            ))))

  -- When the characters take at most 23 bytes, collecting them into a string returns, whatever the
  -- allocator answers: the string is inline, holds their encoding, and the heap is as before.
  pub from_iter-Kept :
      (chars : List ℕ)
      → length (encode chars) ≤ max_inline
      → Returns (λ s h'. Kept h (encode chars) tt tt (s, h')) (from_iter a chars h)
  unfolding from_iter
  from_iter-Kept chars fits = local-Succeeds a (
      Succeeds.mono (extend_chars-Kept chars [] new (new-Rep h) is_inline-new (omega arith))
        λ _ p kept. record { result = refl; rep = kept.rep; place = kept.place; heap = kept.heap })
