-- ===== src/Drain/Laws.antt =====
-- A draining iterator gives the characters of its range from either end, and cuts the range out when
-- it is dropped.
use smartstring.Utf8.Laws.{get_range-some}
use smartstring.Smart.Convert.Laws.{deref-Rep, len-Rep}
use smartstring.Smart.Methods.Laws.{replace_range-Post, grown_inline, shrunk_inline}
use smartstring.Ops.Splice.{splice}
use smartstring.Smart.Macros.Grow.{Post}
use smartstring.Boxed.Grow.{request_limit}
use smartstring.Ops.ReplaceRange.{in_text_lem, in_text, in_text_boundaries, in_text_bounds, InText}
use smartstring.Ops.{bounds_for_half_open, bounds_for, RangeBounds}
use smartstring.Smart.Rep.{Rep}
use smartstring.Smart.{is_inline, SmartString, Mode}
use smartstring.Utf8.{is_char_boundary, encode, IsScalar}
use smartstring.Drain.{half_open, front, back, new, next, next_back, pull, pulls, drained, Pull}
use smartstring.Prelude.{
  ℕ, ◌-◌, ◌<◌, ◌≡◌, ◌∙◌, refl, sym, ap, inl, inr, true, false, List, [], ◌∷◌, Option, none, some,
  arith, leb, Bool-cases, length, take, drop, All,
}
use smartstring.Run.{done, panicked}
use smartstring.Heap.{Heap, Allocator}
use smartstring.Heap.Succeeds
use smartstring.Heap.Succeeds.{Succeeds, returns, gives_up}
use smartstring.Drain.Chars as Chars

-- What the calls answer, in terms of the characters.
unfoldable pub pops : List Pull → List ℕ → List (Option ℕ)
pops [] cs = []
pops (front ∷ ps) cs = let (item, rest) = Chars.pop_front cs in item ∷ pops ps rest
pops (back ∷ ps) cs = let (item, rest) = Chars.pop_back cs in item ∷ pops ps rest

pulls-pops :
    (ps : List Pull) (cs : List ℕ) (start end : ℕ)
    → All IsScalar cs
    → (iter : List ℕ) × (pulls ps (record { start = start; end = end; iter = encode cs })
        ≡ (pops ps cs, record { start = start; end = end; iter = iter }))
unfolding pulls pops pull next next_back
pulls-pops [] cs start end s = (encode cs, refl)
pulls-pops (front ∷ ps) cs start end s =
    let (iter, run) = pulls-pops ps (Chars.pop_front cs).1 start end (Chars.pop_front-All cs s) in
    (iter, rw (Chars.next-pop_front cs s, run) refl)
pulls-pops (back ∷ ps) cs start end s =
    let (iter, run) = pulls-pops ps (Chars.pop_back cs).1 start end (Chars.pop_back-All cs s) in
    (iter, rw (Chars.next_back-pop_back cs s, run) refl)

module _ (a : Allocator) (m : Mode) (rest : Heap) (text : List ℕ) (s : SmartString) (h : Heap)
    (r : Rep rest text s h) (range : RangeBounds) where
  -- What the assertions of `Drain::new` ask.
  new-InText :
      (start end : ℕ)
      → InText range text start end
      → new range (s, h)
        ≡ done
            (record { start = start; end = end; iter = take (end - start) (drop start text) })
            (s, h)
  unfolding new
  new-InText start end i =
      let (ordered, inside) = in_text_bounds text start end i.checked in
      let (b, c) = in_text_boundaries text start end i.checked in
      let t1 : leb start end ≡ true = ground (arith, ordered) in
      let t2 : leb end (length text) ≡ true = ground (arith, inside) in
      rw (len-Rep r, deref-Rep r, i.found, t1, t2, b, c, get_range-some text start end ordered b c)
        refl

  -- For bounds that mean a range in the text with both ends on character boundaries and some
  -- characters between, with the text below 2^62 bytes, and any sequence of calls of next and
  -- next_back: unless the allocator answers null, the draining iterator answers them with those
  -- characters from the front and from the back, and when it is dropped the range has been cut out
  -- of the string, whichever characters were taken.
  pub drained-Post :
      (start end : ℕ) (ps : List Pull) (cs : List ℕ)
      → InText range text start end
      → All IsScalar cs
      → encode cs ≡ take (end - start) (drop start text)
      → length text < request_limit
      → Succeeds a
          (Post rest (splice start end [] text) (pops ps cs) (
            shrunk_inline m
              (grown_inline (is_inline s) (splice start end [] text))
              (splice start end [] text)))
          (drained a m range ps (s, h))
  unfolding drained
  drained-Post start end ps cs i scalars split lim =
      let (iter, run) = pulls-pops ps cs start end scalars in
      let whole : InText (half_open start end) text start end = record {
        found = bounds_for_half_open start end (length text);
        checked = i.checked;
      } in
      let made : new range (s, h)
          ≡ done (record { start = start; end = end; iter = encode cs }) (s, h) =
        new-InText start end i
        ∙ ap (λ t. done (record { start = start; end = end; iter = t }) (s, h)) (sym split) in
      rw (made, run)
        (Succeeds.bind
          (replace_range-Post a rest text s h r m (half_open start end) [] start end whole
            (omega (arith, lim)))
          λ _ p post. returns (record { result = refl; rep = post.rep; place = post.place }))

  -- Bounds that overflow, are out of order, beyond the text, or off a character boundary.
  pub drained_overflow :
      (ps : List Pull)
      → bounds_for range (length text) ≡ none
      → drained a m range ps (s, h) ≡ panicked (s, h)
  unfolding drained new
  drained_overflow ps over = rw (len-Rep r, over) refl

  pub drained-panics :
      (ps : List Pull) (start end : ℕ)
      → bounds_for range (length text) ≡ some (start, end)
      → in_text text start end ≡ false
      → drained a m range ps (s, h) ≡ panicked (s, h)
  unfolding drained new
  drained-panics ps start end found off =
      rw (len-Rep r, deref-Rep r, found)
        (elim (Bool-cases (leb start end)) [
          | inr wrong ↦ rw wrong refl
          | inl t1 ↦ elim (Bool-cases (leb end (length text))) [
            | inr wrong ↦ rw (t1, wrong) refl
            | inl t2 ↦ elim (Bool-cases (is_char_boundary text start)) [
              | inr wrong ↦ rw (t1, t2, wrong) refl
              | inl t3 ↦ elim (Bool-cases (is_char_boundary text end)) [
                | inr wrong ↦ rw (t1, t2, t3, wrong) refl
                | inl t4 ↦ absurd (in_text_lem text start end t1 t2 t3 t4 off)
              ]
            ]
          ]
        ])
