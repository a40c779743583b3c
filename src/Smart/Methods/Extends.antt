-- ===== src/Smart/Methods/Extends.antt =====
-- `extend` and `from_iter`: the characters are pushed one after the other.
use smartstring.Prelude.{
  ℕ, ◌+◌, ◌<◌, ◌≡◌, ◌∙◌, ap, Bool, true, List, [], ◌∷◌, ◌++◌, arith, length, leb, length-append,
  append_assoc, append-nil,
}
use smartstring.Run.{Run}
use smartstring.Request.{Request}
use smartstring.Heap.{Heap, Allocator}
use smartstring.Heap.Succeeds
use smartstring.Heap.Succeeds.{Succeeds, Ends, returns, gives_up}
use smartstring.Utf8.{encode_utf8, encode, len_utf8}
use smartstring.Utf8.Boundary.{length-encode_cons, encode_cons, encode_nil}
use smartstring.Utf8.Laws.{length-encode_utf8}
use smartstring.Inline.{max_inline}
use smartstring.Boxed.Grow.{request_limit}
use smartstring.Smart.{SmartString, new, is_inline}
use smartstring.Smart.Rep.{Rep, new-Rep, is_inline-new}
use smartstring.Smart.Methods.{extend_chars, from_iter, local}
use smartstring.Smart.Methods.Laws.{push-Post, grown_inline}

-- Growing twice is growing once by both.
pub grown_twice :
    (here : Bool) (text more : List ℕ)
    → grown_inline (grown_inline here text) (text ++ more) ≡ grown_inline here (text ++ more)
grown_twice here text more = ground (arith, length-append text more)

pub local-Succeeds :
    {E : Request → Type 0} (a : Allocator) {P : SmartString → Heap → Type 0}
    {r : Run (SmartString × Heap) (Unit {0})}
    → Ends E (λ _ p. P p.0 p.1) r
    → Ends E P (local a r)
unfolding local
local-Succeeds a (returns p) = returns p
local-Succeeds a (gives_up e) = gives_up e

module _ (a : Allocator) (rest : Heap) (here : Bool) where
  -- A string that was inline as `here` says, and has grown to `text`.
  abbrev Extended : List ℕ → SmartString → Heap → Type 0
  Extended text s h = Rep rest text s h × (is_inline s ≡ grown_inline here text)

  extend_chars-Extended :
      (chars text : List ℕ) (s : SmartString) (h : Heap)
      → Extended text s h
      → length text + length (encode chars) < request_limit
      → Succeeds a (λ _ p. Extended (text ++ encode chars) p.0 p.1) (extend_chars a chars (s, h))
  unfolding extend_chars
  extend_chars-Extended [] text s h e lim =
      let same : text ++ encode [] ≡ text = ap (λ t. text ++ t) encode_nil ∙ append-nil text in
      returns (rw same e)
  extend_chars-Extended (ch ∷ chars) text s h (r, grown) lim =
      let size : length text + len_utf8 ch < request_limit =
        omega (arith, length-encode_cons ch chars) in
      let longer : length (text ++ encode_utf8 ch) + length (encode chars) < request_limit = omega (
        arith,
        length-encode_cons ch chars,
        length-append text (encode_utf8 ch),
        length-encode_utf8 ch,
      ) in
      rw (encode_cons ch chars, ← append_assoc text (encode_utf8 ch) (encode chars))
        (Succeeds.bind (push-Post a rest text s h r ch size) λ _ p post.
          extend_chars-Extended chars (text ++ encode_utf8 ch) p.0 p.1
            (
              post.rep,
              post.place
                  ∙ ap (λ b. grown_inline b (text ++ encode_utf8 ch)) grown
                  ∙ grown_twice here text (encode_utf8 ch),
            )
            longer)

-- The new string is inline exactly when the characters fit.
pub from_iter-Rep :
    (a : Allocator) (rest : Heap) (chars : List ℕ)
    → length (encode chars) < request_limit
    → Succeeds a
        (λ s h.
          Rep rest (encode chars) s h × (is_inline s ≡ leb (length (encode chars)) max_inline))
        (from_iter a chars rest)
unfolding from_iter
from_iter-Rep a rest chars lim = local-Succeeds a (
    extend_chars-Extended a rest true chars [] new rest (new-Rep rest, is_inline-new) (omega arith))
