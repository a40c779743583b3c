-- ===== src/Model/Texts.antt =====
-- The first and the last character of a valid text, and the texts beside them.
use smartstring.Prelude.{
  ◌∷◌, All, take-append-drop, All, length-take_le, ℕ, ◌+◌, ◌-◌, ◌≤◌, ◌≡◌, ◌∙◌, sym, ap, ◌⊎◌, inl,
  inr, true, List, [], ◌++◌, none, some, arith, length, take, drop, Bool-cases, length-append,
  length-drop, take-append_eq, drop-append_eq, drop-drop,
}
use smartstring.Utf8.{
  encode, IsScalar, IsUtf8, encode_utf8, len_utf8, is_char_boundary, first_char, last_char,
}
use smartstring.Utf8.Laws.{
  length-encode_utf8, first_char-encode, last_char-encode, first_char-nil, last_char-nil,
  boundary_le,
}
use smartstring.Utf8.Boundary.{
  encode_cons, boundary-append, IsUtf8-take, IsUtf8-drop, IsUtf8-append,
}
use smartstring.Utf8.Edges.{IsUtf8-Begins, IsUtf8-Ends, Begins, Ends}
use smartstring.Ops.Splice.{splice}
use smartstring.Model.{control_retain, contains}

-- The last character of a text, and the text before it.
pub last_char-Ends :
    (text : List ℕ)
    → IsUtf8 text
    → ((text ≡ []) × (last_char text ≡ none)) ⊎ ((e : Ends text) × (last_char text ≡ some e.ch))
last_char-Ends text u = elim (IsUtf8-Ends u.chars u.scalars) [
  | inl empty ↦
      let nil : text ≡ [] = sym u.encoded ∙ empty in inl (nil, ap last_char nil ∙ last_char-nil)
  | inr e ↦
      let split : text ≡ e.front ++ encode_utf8 e.ch = sym u.encoded ∙ e.split in
      inr (
        record {
          ch = e.ch;
          scalar = e.scalar;
          front = e.front;
          front_utf8 = e.front_utf8;
          split = split;
        },
        ap last_char split ∙ last_char-encode e.front e.ch e.scalar,
      )
]

pub IsUtf8-splice :
    (start end : ℕ) (src text : List ℕ)
    → IsUtf8 text
    → IsUtf8 src
    → is_char_boundary text start ≡ true
    → is_char_boundary text end ≡ true
    → IsUtf8 (splice start end src text)
IsUtf8-splice start end src text u v b c =
    IsUtf8-append (take start text) (src ++ drop end text) (IsUtf8-take text start b u)
      (IsUtf8-append src (drop end text) v (IsUtf8-drop text end c u))

-- The last character and the text before it are the whole text.
module _ (text : List ℕ) (e : Ends text) where
  ends_length : length text ≡ length e.front + len_utf8 e.ch
  ends_length =
      omega (
        arith,
        ap length e.split,
        length-append e.front (encode_utf8 e.ch),
        length-encode_utf8 e.ch,
      )

  pub Ends-fits : len_utf8 e.ch ≤ length text
  Ends-fits = omega (arith, ends_length)

  front_eq : take (length text - len_utf8 e.ch) text ≡ e.front
  front_eq =
      ap (take (length text - len_utf8 e.ch)) e.split
      ∙ take-append_eq (length text - len_utf8 e.ch) e.front (encode_utf8 e.ch)
          (omega (arith, ends_length))

  pub Ends-front : IsUtf8 (take (length text - len_utf8 e.ch) text)
  Ends-front = rw front_eq e.front_utf8

-- So are the text up to a boundary, the character there and the text behind it.
module _ (text : List ℕ) (index : ℕ) (inside : index ≤ length text)
    (e : Begins (drop index text)) where
  begins_length : length text ≡ index + (len_utf8 e.ch + length e.rest)
  begins_length = omega (
    arith,
    inside,
    length-drop index text,
    ap length e.split,
    length-append (encode_utf8 e.ch) e.rest,
    length-encode_utf8 e.ch,
  )

  pub Begins-fits : index + len_utf8 e.ch ≤ length text
  Begins-fits = omega (arith, begins_length)

  rest_eq : drop (index + len_utf8 e.ch) text ≡ e.rest
  rest_eq =
      sym (drop-drop (len_utf8 e.ch) index text)
      ∙ ap (drop (len_utf8 e.ch)) e.split
      ∙ drop-append_eq (len_utf8 e.ch) (encode_utf8 e.ch) e.rest (sym (length-encode_utf8 e.ch))

  pub Begins-rest : IsUtf8 (drop (index + len_utf8 e.ch) text)
  Begins-rest = rw rest_eq e.rest_utf8

pub first_char-Begins :
    (text : List ℕ)
    → IsUtf8 text
    → ((text ≡ []) × (first_char text ≡ none)) ⊎ ((e : Begins text) × (first_char text ≡ some e.ch))
first_char-Begins text u = elim (IsUtf8-Begins text u) [
  | inl nil ↦ inl (nil, ap first_char nil ∙ first_char-nil)
  | inr e ↦ inr (e, ap first_char e.split ∙ first_char-encode e.ch e.rest e.scalar)
]

-- The bytes between two boundaries are valid.
pub IsUtf8-between :
    (start end : ℕ) (text : List ℕ)
    → IsUtf8 text
    → start ≤ end
    → is_char_boundary text start ≡ true
    → is_char_boundary text end ≡ true
    → IsUtf8 (take (end - start) (drop start text))
IsUtf8-between start end text u ordered b c =
    let front : length (take start text) ≡ start =
      length-take_le start text (boundary_le text start b) in
    let behind : is_char_boundary (drop start text) (end - length (take start text)) ≡ true =
      boundary-append (take start text) (drop start text) end (omega arith)
        (rw (take-append-drop start text) c) in
    IsUtf8-take (drop start text) (end - start) (rw front at behind) (IsUtf8-drop text start b u)

-- The characters that `retain` keeps.
pub control_retain-All :
    (filter cs : List ℕ) → All IsScalar cs → All IsScalar (control_retain filter cs)
unfolding control_retain
control_retain-All filter [] s = tt
control_retain-All filter (c ∷ cs) (s, ss) = elim (Bool-cases (contains filter c)) [
  | inl keep ↦ rw keep (s, control_retain-All filter cs ss)
  | inr lose ↦ rw lose (control_retain-All filter cs ss)
]

pub length-control_retain :
    (filter cs : List ℕ) → length (encode (control_retain filter cs)) ≤ length (encode cs)
unfolding control_retain
length-control_retain filter [] = omega arith
length-control_retain filter (c ∷ cs) = elim (Bool-cases (contains filter c)) [
  | inl keep ↦
      rw (keep, encode_cons c cs, encode_cons c (control_retain filter cs))
        (omega (
          arith,
          length-control_retain filter cs,
          length-append (encode_utf8 c) (encode cs),
          length-append (encode_utf8 c) (encode (control_retain filter cs)),
        ))
  | inr lose ↦
      rw (lose, encode_cons c cs)
        (omega (arith, length-control_retain filter cs, length-append (encode_utf8 c) (encode cs)))
]
