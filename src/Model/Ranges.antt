-- ===== src/Model/Ranges.antt =====
-- The actions of a range: `Slice`, `Drain` and `ReplaceRange`.
use smartstring.Smart.Methods.Laws.{replace_range-Post}
use smartstring.Ops.Splice.{splice}
use smartstring.Smart.Methods.Panics.{replace_range-panics, replace_range_overflow}
use smartstring.Model.Texts.{IsUtf8-between}
use smartstring.Boxed.Grow.{request_limit}
use smartstring.Model.Answers.{answered, reply-panics, Agrees, Answer}
use smartstring.Model.Bounds.{
  should_panic-InText, ends, starts, between, to_range, should_panic-Within, index-should_panic,
  should_panic-outside, index, should_panic, TestBounds,
}
use smartstring.Smart.Rep.{Rep}
use smartstring.Smart.{is_inline, SmartString, Mode}
use smartstring.Prelude.{
  length-drop, length-take, replicate, ℕ, zero, suc, ◌+◌, ◌-◌, ◌<◌, ◌≡◌, ◌∙◌, refl, sym, ap, inl,
  inr, List, [], ◌∷◌, ◌++◌, none, some, arith, Bool-cases, length, drop,
}
use smartstring.Run.{done}
use smartstring.Heap.{Heap, Allocator}
use smartstring.Heap.Succeeds
use smartstring.Heap.Succeeds.{Succeeds, returns, gives_up}
use smartstring.Model.{
  slice, drain, replace_range, control, control_slice, control_drain, control_range, perform,
  perform_drain, is_ignored, collected, nothing, bytes,
}
use smartstring.Drain.{front, Pull}
use smartstring.Drain.Laws.{drained-panics, drained_overflow, pops, drained-Post}
use smartstring.Drain.Chars as Chars
use smartstring.Utf8.{IsUtf8, encode, encode_utf8}
use smartstring.Utf8.Boundary.{encode_cons, encode_nil}
use smartstring.Smart.Methods
use smartstring.Smart.Convert.{deref}
use smartstring.Smart.Convert.Laws.{deref-Rep}
use smartstring.Utf8.Boundary.{length-encode_le}

-- Calls from the front until the iterator is empty give all the characters.
collected-pops :
    (n : ℕ) (cs : List ℕ) → length cs < n → collected (pops (replicate n front) cs) ≡ encode cs
unfolding collected pops Chars.pop_front
collected-pops zero cs le = absurd (omega arith)
collected-pops (suc n) [] le = sym encode_nil
collected-pops (suc n) (c ∷ cs) le =
    ap (λ t. encode_utf8 c ++ t) (collected-pops n cs (omega arith)) ∙ sym (encode_cons c cs)

module _ (a : Allocator) (rest : Heap) (m : Mode) (s : SmartString) (h : Heap) (text : List ℕ)
    (r : Rep rest text s h) where
  pub Agrees-slice :
      (b : TestBounds)
      → length text < request_limit
      → Agrees a rest m s h text (control (slice b) text) (perform a m (slice b) (s, h))
  unfolding control control_slice perform
  Agrees-slice b lim = elim (Bool-cases (should_panic b text)) [
    | inl panics ↦
        let off : index b s ≡ none = index-should_panic text (omega arith) r b ∙ rw panics refl in
        rw (panics, off) refl
    | inr ok ↦
        let found : index b s ≡ some (between b text) =
          index-should_panic text (omega arith) r b ∙ rw ok refl in
        rw (ok, found) (returns (record { result = refl; rep = r; tight = λ t. t }))
  ]

  -- An action that is not tried.
  ignored-Agrees : Succeeds a (Answer rest m (is_inline s) text text nothing) (done nothing (s, h))
  ignored-Agrees = returns (record { result = refl; rep = r; tight = λ t. t })

  pub Agrees-drain :
      IsUtf8 text
      → (b : TestBounds) → length text < request_limit
      → Agrees a rest m s h text (control (drain b) text) (perform a m (drain b) (s, h))
  unfolding control control_drain perform perform_drain
  Agrees-drain u b lim = elim (Bool-cases (is_ignored b)) [
    | inl ignored ↦ rw ignored ignored-Agrees
    | inr tried ↦
        let calls : List Pull = replicate (length (deref s) + 1) front in
        elim (Bool-cases (should_panic b text)) [
          | inl panics ↦ elim (should_panic-outside text (omega arith) b panics) [
            | inl over ↦
                rw (tried, panics, drained_overflow a m rest text s h r (to_range b) calls over)
                  refl
            | inr (found, off) ↦
                rw
                  (
                    tried,
                    panics,
                    drained-panics a m rest text s h r (to_range b) calls _ _ found off,
                  )
                  refl
          ]
          | inr ok ↦
              let w = should_panic-Within text b ok in
              let v =
                IsUtf8-between (starts b) (ends b text) text u w.ordered w.from_char w.to_char in
              let few : length v.chars < length (deref s) + 1 = omega (
                arith,
                length-encode_le v.chars,
                ap length v.encoded,
                length-take (ends b text - starts b) (drop (starts b) text),
                length-drop (starts b) text,
                ap length (deref-Rep r),
              ) in
              rw (tried, ok)
                (Succeeds.bind
                  (drained-Post a m rest text s h r (to_range b) (starts b) (ends b text) calls
                    v.chars (should_panic-InText text (omega arith) b ok) v.scalars v.encoded lim)
                  λ items p post. returns (record {
                    result = ap bytes (
                        ap collected post.result
                        ∙ collected-pops (length (deref s) + 1) v.chars few
                        ∙ v.encoded);
                    rep = post.rep;
                    tight = λ _ eager. post.place ∙ rw eager (ground arith);
                  }))
        ]
  ]

  -- The last step of `replace_range` makes the string tight, whether it was or not.
  pub Agrees-range :
      (b : TestBounds) (src : List ℕ)
      → length text + length src < request_limit
      → Agrees a rest m s h text
          (control (replace_range b src) text)
          (perform a m (replace_range b src) (s, h))
  unfolding control control_range perform
  Agrees-range b src lim = elim (Bool-cases (is_ignored b)) [
    | inl ignored ↦ rw ignored ignored-Agrees
    | inr tried ↦ elim (Bool-cases (should_panic b text)) [
      | inl panics ↦
          rw (tried, panics)
            (reply-panics s h (λ _. nothing) (Methods.replace_range a m (to_range b) src)
              (elim (should_panic-outside text (omega arith) b panics) [
                | inl over ↦ replace_range_overflow a m rest text s h r (to_range b) src over
                | inr (found, off) ↦
                    replace_range-panics a m rest text s h r (to_range b) src (starts b)
                      (ends b text) found off
              ]))
      | inr ok ↦
          let text' = splice (starts b) (ends b text) src text in
          rw (tried, ok)
            (answered a rest m s h text text' tt (λ _. nothing)
              (Methods.replace_range a m (to_range b) src) (λ t eager. rw eager (ground arith))
              (replace_range-Post a rest text s h r m (to_range b) src (starts b) (ends b text)
                (should_panic-InText text (omega arith) b ok) lim))
    ]
  ]
