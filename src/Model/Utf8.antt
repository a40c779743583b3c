-- ===== src/Model/Utf8.antt =====
-- Every action keeps the text valid UTF-8.
use smartstring.Model.Bounds.{should_panic-Within, ends, starts, should_panic, TestBounds}
use smartstring.Model.Texts.{
  Begins-rest, Ends-front, control_retain-All, IsUtf8-splice, first_char-Begins, last_char-Ends,
}
use smartstring.Prelude.{
  All, refl, false, ℕ, ◌≡◌, inl, inr, true, List, [], Option, none, some, length, take, drop, ltb,
  Bool-cases,
}
use smartstring.Utf8.{IsScalar, IsUtf8, encode_utf8, is_char_boundary}
use smartstring.Utf8.Laws.{boundary_le}
use smartstring.Utf8.Boundary.{
  IsUtf8-take, IsUtf8-drop, IsUtf8-append, IsUtf8-nil, IsUtf8-encode_utf8,
}
use smartstring.Ops.Splice.{splice}
use smartstring.Drain.Chars as Chars
use smartstring.Model.{
  slice, split_off, into_string, retain, drain, control_slice, control_drain, control_retain,
  is_ignored, Action, Reply, control, control_pop, control_remove, control_range, push, push_str,
  truncate, pop, remove, insert, insert_str, clear, replace_range,
}

-- What the types of the arguments say: a `char` is a scalar value and a `&str` is valid UTF-8.
abbrev pub IsTyped : Action → Type 0
IsTyped (push ch) = IsScalar ch
IsTyped (push_str string) = IsUtf8 string
IsTyped (insert index ch) = IsScalar ch
IsTyped (insert_str index string) = IsUtf8 string
IsTyped (retain filter) = All IsScalar filter
IsTyped (replace_range b src) = IsUtf8 src
IsTyped _ = Unit {0}

-- The new text, where there is one, is valid.
abbrev pub Kept : Option (List ℕ × Reply) → Type 0
Kept none = Unit {0}
Kept (some (text, reply)) = IsUtf8 text

module _ (text : List ℕ) (u : IsUtf8 text) where
  Kept-truncate : (n : ℕ) → Kept (control (truncate n) text)
  unfolding control
  Kept-truncate n = elim (Bool-cases (ltb n (length text))) [
    | inl shorter ↦ elim (Bool-cases (is_char_boundary text n)) [
      | inl b ↦ rw (shorter, b) (IsUtf8-take text n b u)
      | inr off ↦ rw (shorter, off) tt
    ]
    | inr longer ↦ rw longer u
  ]

  Kept-pop : Kept (control pop text)
  unfolding control control_pop
  Kept-pop = elim (last_char-Ends text u) [
    | inl (nil, last) ↦ rw last u
    | inr (e, last) ↦ rw last (Ends-front text e)
  ]

  Kept-remove : (index : ℕ) → Kept (control (remove index) text)
  unfolding control control_remove
  Kept-remove index = elim (Bool-cases (is_char_boundary text index)) [
    | inl b ↦ elim (first_char-Begins (drop index text) (IsUtf8-drop text index b u)) [
      | inl (nil, first) ↦ rw (b, first) tt
      | inr (e, first) ↦
          rw (b, first)
            (IsUtf8-append (take index text) _ (IsUtf8-take text index b u)
              (Begins-rest text index (boundary_le text index b) e))
    ]
    | inr off ↦ rw off tt
  ]

  kept_insert :
      (index : ℕ) (src : List ℕ)
      → IsUtf8 src
      → is_char_boundary text index ≡ true
      → IsUtf8 (splice index index src text)
  kept_insert index src v b = IsUtf8-splice index index src text u v b b

  Kept-slice : (b : TestBounds) → Kept (control (slice b) text)
  unfolding control control_slice
  Kept-slice b = elim (Bool-cases (should_panic b text)) [
    | inl panics ↦ rw panics tt
    | inr ok ↦ rw ok u
  ]

  kept_range :
      (b : TestBounds) (src : List ℕ)
      → IsUtf8 src
      → should_panic b text ≡ false
      → IsUtf8 (splice (starts b) (ends b text) src text)
  kept_range b src v ok =
      let w = should_panic-Within text b ok in
      IsUtf8-splice (starts b) (ends b text) src text u v w.from_char w.to_char

  Kept-drain : (b : TestBounds) → Kept (control (drain b) text)
  unfolding control control_drain
  Kept-drain b = elim (Bool-cases (is_ignored b)) [
    | inl ignored ↦ rw ignored u
    | inr tried ↦ elim (Bool-cases (should_panic b text)) [
      | inl panics ↦ rw (tried, panics) tt
      | inr ok ↦ rw (tried, ok) (kept_range b [] IsUtf8-nil ok)
    ]
  ]

  Kept-range :
      (b : TestBounds) (src : List ℕ) → IsUtf8 src → Kept (control (replace_range b src) text)
  unfolding control control_range
  Kept-range b src v = elim (Bool-cases (is_ignored b)) [
    | inl ignored ↦ rw ignored u
    | inr tried ↦ elim (Bool-cases (should_panic b text)) [
      | inl panics ↦ rw (tried, panics) tt
      | inr ok ↦ rw (tried, ok) (kept_range b src v ok)
    ]
  ]

  Kept-retain : (filter : List ℕ) → Kept (control (retain filter) text)
  unfolding control
  Kept-retain filter =
      rw (← u.encoded, Chars.collect-encode u.chars u.scalars)
        (record {
          chars = control_retain filter u.chars;
          scalars = control_retain-All filter u.chars u.scalars;
          encoded = refl;
        })

  pub control-IsUtf8 : (action : Action) → IsTyped action → Kept (control action text)
  unfolding control
  control-IsUtf8 (slice b) t = Kept-slice b
  control-IsUtf8 (push ch) t = IsUtf8-append text (encode_utf8 ch) u (IsUtf8-encode_utf8 ch t)
  control-IsUtf8 (push_str string) t = IsUtf8-append text string u t
  control-IsUtf8 (truncate n) t = Kept-truncate n
  control-IsUtf8 pop t = Kept-pop
  control-IsUtf8 (remove index) t = Kept-remove index
  control-IsUtf8 (insert index ch) t = elim (Bool-cases (is_char_boundary text index)) [
    | inl b ↦ rw b (kept_insert index (encode_utf8 ch) (IsUtf8-encode_utf8 ch t) b)
    | inr off ↦ rw off tt
  ]
  control-IsUtf8 (insert_str index string) t = elim (Bool-cases (is_char_boundary text index)) [
    | inl b ↦ rw b (kept_insert index string t b)
    | inr off ↦ rw off tt
  ]
  control-IsUtf8 (split_off index) t = elim (Bool-cases (is_char_boundary text index)) [
    | inl b ↦ rw b (IsUtf8-take text index b u)
    | inr off ↦ rw off tt
  ]
  control-IsUtf8 clear t = IsUtf8-nil
  control-IsUtf8 into_string t = u
  control-IsUtf8 (retain filter) t = Kept-retain filter
  control-IsUtf8 (drain b) t = Kept-drain b
  control-IsUtf8 (replace_range b src) t = Kept-range b src t
