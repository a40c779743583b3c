-- ===== src/Smart/Methods/Laws.antt =====
-- What each method does to the text, to the form of the string and to the heap.
use smartstring.Smart.Macros.{really_try_demote}
use smartstring.Prelude.{
  ◌≡◌, sym, max, false, ℕ, ◌+◌, ◌<◌, ◌∙◌, refl, ap, Bool, true, ◌&&◌, ◌||◌, List, [], ◌++◌, arith,
  length, ltb, leb, Bool-cases, inl, inr, length-append,
}
use smartstring.Smart.Convert.{capacity}
use smartstring.Smart.Convert.Laws.{capacity-inline, capacity-from_boxed}
use smartstring.Heap.{Heap, Allocator}
use smartstring.Heap.Succeeds
use smartstring.Heap.Succeeds.{always, Returns, Succeeds, returns}
use smartstring.Utf8.{encode_utf8, len_utf8}
use smartstring.Utf8.Laws.{length-encode_utf8}
use smartstring.Inline.{max_inline}
use smartstring.Boxed.Wf as BoxedWf
use smartstring.Boxed.Texts.{shrink_to_fit-Stored}
use smartstring.Boxed.Grow.{request_limit}
use smartstring.Ops.{RangeBounds}
use smartstring.Ops.Splice.{splice}
use smartstring.Ops.InsertBytes.{length-splice}
use smartstring.Ops.Push
use smartstring.Ops.PushStr
use smartstring.Ops.ReplaceRange
use smartstring.Ops.ReplaceRange.{InText, in_text, in_text_bounds}
use smartstring.Smart.{SmartString, Mode, dealloc, cast, is_inline}
use smartstring.Smart.Cast.{cast-from_boxed, cast-from_inline}
use smartstring.Smart.Rep.{
  inline-fits, Inlined-length, Stored-text, Rep, inlined, stored, new-Rep, is_inline-new,
}
use smartstring.Smart.Macros.Grow.{Post, string_op_grow-Post}
use smartstring.Smart.Macros.Shrink.{
  try_demote-Post, really_try_demote-Post, really_try_demote_long, drop-Rep,
}
use smartstring.Smart.Methods.{
  push, push_str, shrink_to_fit, shrink_cast_to_fit, clear, replace_range,
}

-- Whether a string is inline once its text has become `text`: with an operation that may grow it,
-- and with one that tries to demote it.
abbrev pub grown_inline : Bool → List ℕ → Bool
grown_inline here text = here && leb (length text) max_inline

abbrev pub shrunk_inline : Mode → Bool → List ℕ → Bool
shrunk_inline m here text = here || (dealloc m && leb (length text) max_inline)

module _ (a : Allocator) (rest : Heap) (text : List ℕ) (s : SmartString) (h : Heap)
    (r : Rep rest text s h) where
  -- With the two lengths together below 2^62, unless the allocator answers null, the string is
  -- appended, and the result is inline exactly when the string was and the new text fits.
  pub push_str-Post :
      (string : List ℕ)
      → length text + length string < request_limit
      → Succeeds a
          (Post rest (text ++ string) tt (grown_inline (is_inline s) (text ++ string)))
          (push_str a string (s, h))
  unfolding push_str
  push_str-Post string lim =
      string_op_grow-Post a (PushStr.grow string) rest text (text ++ string) tt
        (PushStr.grow-Grows string text (omega arith)) (omega (arith, length-append text string)) s
        h r

  -- With the new length below 2^62, unless the allocator answers null, the character's encoding is
  -- appended, and the result is inline exactly when the string was and the new text fits.
  pub push-Post :
      (ch : ℕ)
      → length text + len_utf8 ch < request_limit
      → Succeeds a
          (Post rest
            (text ++ encode_utf8 ch)
            tt
            (grown_inline (is_inline s) (text ++ encode_utf8 ch)))
          (push a ch (s, h))
  unfolding push
  push-Post ch lim =
      string_op_grow-Post a (Push.grow ch) rest text (text ++ encode_utf8 ch) tt
        (Push.grow-Grows ch text (omega arith))
        (omega (arith, length-append text (encode_utf8 ch), length-encode_utf8 ch)) s h r

  -- For a range in the text with both ends on character boundaries, with the two lengths together
  -- below 2^62, unless the allocator answers null: the range is replaced, and the string is inline
  -- exactly when it was and the new text fits, or when the mode is eager and the new text fits.
  pub replace_range-Post :
      (m : Mode) (range : RangeBounds) (src : List ℕ) (start end : ℕ)
      → InText range text start end
      → length text + length src < request_limit
      → Succeeds a
          (Post rest (splice start end src text) tt (
            shrunk_inline m
              (grown_inline (is_inline s) (splice start end src text))
              (splice start end src text)))
          (replace_range a m range src (s, h))
  unfolding replace_range
  replace_range-Post m range src start end i lim =
      let text' = splice start end src text in
      let (ordered, inside) = in_text_bounds text start end i.checked in
      Succeeds.bind
        (string_op_grow-Post a (ReplaceRange.grow range src) rest text text' tt
          (ReplaceRange.grow-Grows range src text start end i (omega arith))
          (omega (arith, length-splice start end src text ordered inside)) s h r)
        λ _ p post.
          Succeeds.bind (always (try_demote-Post a rest text' m p.0 p.1 post.rep))
            λ _ q (rep, place). returns (record {
              result = refl;
              rep = rep;
              place = place ∙ ap (λ b. shrunk_inline m b text') post.place;
            })

  -- The string, whose block is as large as its text if it does not fit inline.
  abbrev Fitted : SmartString → Heap → Type 0
  Fitted s h = Rep rest text s h × (ltb max_inline (length text) ≡ true → capacity s ≡ length text)

  fit_cast : Succeeds a (λ _ p. Fitted p.0 p.1) (shrink_cast_to_fit a (cast s) (s, h))
  unfolding shrink_cast_to_fit
  fit_cast = elim r [
    | inlined i e w same ↦
        rw (ap cast e ∙ cast-from_inline i w.wf)
          (returns (inlined i e w same, λ more. absurd (ground (arith, more, Inlined-length w))))
    | stored b e st ↦
        let size = ap length st.text_eq in
        rw (ap cast e ∙ cast-from_boxed b st.wf, st.text_eq)
          (elim (Bool-cases (ltb max_inline (length text))) [
            | inl more ↦ rw more (
                Succeeds.bind_map (λ h'. (s, h')) _
                  (shrink_to_fit-Stored a rest b h st.wf st.owned
                    (ground (arith, size, BoxedWf.length-deref b st.wf)))
                  λ c h' (st', fitted, _). returns (
                    stored c refl (Stored-text st st'),
                    λ _.
                        capacity-from_boxed c st'.wf
                        ∙ fitted
                        ∙ sym (BoxedWf.length-deref b st.wf)
                        ∙ size,
                  ))
            | inr fits ↦ rw fits (returns (stored b e st, λ more. cc (more, fits)))
          ])
  ]

  demoted :
      (p : SmartString × Heap)
      → Fitted p.0 p.1
      → Succeeds a
          (λ x q.
            Post rest text tt (leb (length text) max_inline) tt q
            × (capacity q.0 ≡ max (length text) max_inline))
          (really_try_demote a p)
  demoted p (rep, fitted) = elim (Bool-cases (ltb max_inline (length text))) [
    | inl more ↦
        let big : leb (length text) max_inline ≡ false = ground (arith, more) in
        rw (really_try_demote_long a rest text p.0 p.1 rep more) (
          returns (
            record {
              result = refl;
              rep = rep;
              place = elim (Bool-cases (is_inline p.0)) [
                | inl here ↦ here ∙ sym (inline-fits rep here)
                | inr away ↦ away ∙ sym big
              ];
            },
            ground (arith, fitted more),
          ))
    | inr fits ↦ Succeeds.mono (always (really_try_demote-Post a rest text p.0 p.1 rep)) λ _ q post.
        (
          record { result = refl; rep = post.rep; place = post.place },
          ground (arith, capacity-inline post.rep (post.place ∙ ground arith)),
        )
  ]

  -- In either mode, on a string of either form, unless the allocator answers null: the text stays,
  -- the capacity is afterwards the length of the text, or 23 if that is larger, and the string is
  -- inline exactly when the text fits; a block that is no longer used has been given back.
  pub shrink_to_fit-Post :
      Succeeds a
        (λ x p.
          Post rest text tt (leb (length text) max_inline) x p
          × (capacity p.0 ≡ max (length text) max_inline))
        (shrink_to_fit a (s, h))
  unfolding shrink_to_fit
  shrink_to_fit-Post =
      Succeeds.bind fit_cast λ _ p fitted. Succeeds.bind (demoted p fitted) λ _ q post. returns post

  -- In either mode and whatever the allocator answers, clear returns, the string is empty and
  -- inline afterwards, and the block of its old value has been given back.
  pub clear-Post : Returns (Post rest [] tt true) (clear a (s, h))
  unfolding clear
  clear-Post =
      rw (drop-Rep a rest text s h r)
        (returns (record { result = refl; rep = new-Rep rest; place = is_inline-new }))
