-- ===== src/Utf8/Laws.antt =====
-- What the model of UTF-8 satisfies: lengths, and reading back what was written.
use smartstring.Prelude.{
  take_all, drop-append_eq, ◌-◌, length-append, ◌∙◌, ap, take, ℕ, ◌+◌, ◌/◌, ◌%◌, ◌≤◌, ◌<◌, ◌≡◌,
  refl, true, false, List, [], ◌∷◌, ◌++◌, none, some, not, arith, length, drop, get_or,
}
use native.Mathlib.Decide.{dec_lt}
use mathlib.Core.List.{reverse, reverse-append}
use smartstring.Prelude.{leb}
use smartstring.Utf8.{
  get_range, IsScalar, len_utf8, encode_utf8, is_char_boundary, is_continuation, first_char,
  get_from, last_char, last_char_of,
}

pub length-encode_utf8 : (c : ℕ) → length (encode_utf8 c) ≡ len_utf8 c
unfolding encode_utf8 len_utf8
length-encode_utf8 c = ground arith

pub len_utf8_pos : (c : ℕ) → 0 < len_utf8 c
unfolding len_utf8
len_utf8_pos c = ground arith

pub first_char-nil : first_char [] ≡ none
unfolding first_char
first_char-nil = refl

pub last_char-nil : last_char [] ≡ none
unfolding last_char last_char_of
last_char-nil = refl

pub get_from_boundary :
    (s : List ℕ) (i : ℕ) → is_char_boundary s i ≡ true → get_from s i ≡ some (drop i s)
unfolding get_from
get_from_boundary s i h = rw h

pub get_from_off : (s : List ℕ) (i : ℕ) → is_char_boundary s i ≡ false → get_from s i ≡ none
unfolding get_from
get_from_off s i h = rw h

pub boundary_le : (s : List ℕ) (i : ℕ) → is_char_boundary s i ≡ true → i ≤ length s
unfolding is_char_boundary
boundary_le s i h = ground arith

pub len_utf8_le : (c : ℕ) → len_utf8 c ≤ 4
unfolding len_utf8
len_utf8_le c = ground arith

-- Which indices are boundaries.
module _ (s : List ℕ) where
  pub boundary_start : is_char_boundary s 0 ≡ true
  unfolding is_char_boundary
  boundary_start = refl

  pub boundary_beyond : (i : ℕ) → length s < i → is_char_boundary s i ≡ false
  unfolding is_char_boundary
  boundary_beyond i h = ground arith

  pub boundary_inside :
      (i : ℕ) → 0 < i → i < length s → is_char_boundary s i ≡ not (is_continuation (get_or s i 0))
  unfolding is_char_boundary
  boundary_inside i h k = ground arith

pub boundary_end : (s : List ℕ) → is_char_boundary s (length s) ≡ true
unfolding is_char_boundary
boundary_end s = ground arith

pub get_range-some :
    (s : List ℕ) (i j : ℕ)
    → i ≤ j
    → is_char_boundary s i ≡ true
    → is_char_boundary s j ≡ true
    → get_range s i j ≡ some (take (j - i) (drop i s))
unfolding get_range
get_range-some s i j h b c = let le : leb i j ≡ true = ground arith in rw (le, b, c)

-- The first byte of a character is no continuation byte, so a character begins on a boundary.
first_byte :
    (c : ℕ) (r : List ℕ) → IsScalar c → is_continuation (get_or (encode_utf8 c ++ r) 0 0) ≡ false
unfolding encode_utf8
first_byte c r s = ground arith

get_or-append : (xs ys : List ℕ) (d : ℕ) → get_or (xs ++ ys) (length xs) d ≡ get_or ys 0 d
get_or-append [] ys d = refl
get_or-append (x ∷ xs) ys d = get_or-append xs ys d

boundary_of_char :
    (xs : List ℕ) (c : ℕ) (r : List ℕ)
    → IsScalar c
    → is_char_boundary (xs ++ (encode_utf8 c ++ r)) (length xs) ≡ true
unfolding is_char_boundary
boundary_of_char xs c r s =
    let byte : is_continuation (get_or (xs ++ (encode_utf8 c ++ r)) (length xs) 0) ≡ false =
      ap is_continuation (get_or-append xs (encode_utf8 c ++ r) 0) ∙ first_byte c r s in
    let before : leb (length (xs ++ (encode_utf8 c ++ r))) (length xs) ≡ false = ground (
      arith,
      length-append xs (encode_utf8 c ++ r),
      length-append (encode_utf8 c) r,
      length-encode_utf8 c,
      len_utf8_pos c,
    ) in
    rw (before, byte) (ground arith)

-- So the text from there on is found, and begins with the character.
pub get_range_of_char :
    (xs : List ℕ) (c : ℕ) (r : List ℕ)
    → IsScalar c
    → get_range (xs ++ (encode_utf8 c ++ r)) (length xs) (length (xs ++ (encode_utf8 c ++ r)))
      ≡ some (encode_utf8 c ++ r)
get_range_of_char xs c r s =
    let text = xs ++ (encode_utf8 c ++ r) in
    let size = length-append xs (encode_utf8 c ++ r) in
    get_range-some text (length xs) (length text) (omega (arith, size)) (boundary_of_char xs c r s)
      (boundary_end text)
    ∙ ap some (
        ap (take (length text - length xs)) (drop-append_eq (length xs) xs _ refl)
        ∙ take_all (length text - length xs) (encode_utf8 c ++ r) (omega (arith, size)))

pub first_char-encode :
    (c : ℕ) (rest : List ℕ) → IsScalar c → first_char (encode_utf8 c ++ rest) ≡ some c
unfolding first_char encode_utf8
first_char-encode c rest h = ground arith

-- The four lengths of an encoding.
module _ (c : ℕ) where
  pub one_byte : c < 0x80 → encode_utf8 c ≡ c ∷ []
  unfolding encode_utf8
  one_byte h = ground arith

  two_bytes : 0x80 ≤ c → c < 0x800 → encode_utf8 c ≡ (0xc0 + c / 0x40) ∷ (0x80 + c % 0x40) ∷ []
  unfolding encode_utf8
  two_bytes h k = ground arith

  three_bytes :
      0x800 ≤ c
      → c < 0x1_0000
      → encode_utf8 c ≡ (0xe0 + c / 0x1000) ∷ (0x80 + c / 0x40 % 0x40) ∷ (0x80 + c % 0x40) ∷ []
  unfolding encode_utf8
  three_bytes h k = ground arith

  four_bytes :
      0x1_0000 ≤ c
      → encode_utf8 c
        ≡ (0xf0 + c / 0x4_0000)
          ∷ (0x80 + c / 0x1000 % 0x40)
          ∷ (0x80 + c / 0x40 % 0x40)
          ∷ (0x80 + c % 0x40)
          ∷ []
  unfolding encode_utf8
  four_bytes h = ground arith

  last_char_of-encode :
      (r : List ℕ) → IsScalar c → last_char_of (reverse (encode_utf8 c) ++ r) ≡ some c
  unfolding last_char_of
  last_char_of-encode r h = elim (dec_lt c 0x80) [
    | yes a ↦ rw (one_byte a) (ground arith)
    | no a ↦ elim (dec_lt c 0x800) [
      | yes b ↦ rw (two_bytes (omega arith) b) (ground arith)
      | no b ↦ elim (dec_lt c 0x1_0000) [
        | yes d ↦ rw (three_bytes (omega arith) d) (ground arith)
        | no d ↦ rw (four_bytes (omega arith)) (ground arith)
      ]
    ]
  ]

pub last_char-encode : (s : List ℕ) (c : ℕ) → IsScalar c → last_char (s ++ encode_utf8 c) ≡ some c
unfolding last_char
last_char-encode s c h = rw (reverse-append s (encode_utf8 c)) (last_char_of-encode c (reverse s) h)
