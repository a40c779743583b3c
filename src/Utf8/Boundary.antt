-- ===== src/Utf8/Boundary.antt =====
-- Character boundaries are where the encodings of two texts meet.
use smartstring.Prelude.{
  ℕ, zero, suc, ◌+◌, ◌-◌, ◌≤◌, ◌<◌, ◌≡◌, ◌∙◌, refl, sym, ap, inl, true, false, List, [], ◌∷◌, ◌++◌,
  arith, length, length-append, take, drop, get_or, All, append_assoc, append-nil, take-append_eq,
  drop-append_eq, leb, ◌==◌,
}
use native.Mathlib.Decide.{dec_lt}
use smartstring.Utf8.{
  IsScalar, IsUtf8, len_utf8, encode_utf8, encode, is_char_boundary, is_continuation,
}
use smartstring.Utf8.Laws.{len_utf8_pos, length-encode_utf8, one_byte, boundary_le}

pub encode-append : (xs ys : List ℕ) → encode (xs ++ ys) ≡ encode xs ++ encode ys
unfolding encode
encode-append [] ys = refl
encode-append (x ∷ xs) ys =
    ap (λ t. encode_utf8 x ++ t) (encode-append xs ys)
    ∙ sym (append_assoc (encode_utf8 x) (encode xs) (encode ys))

pub encode_nil : encode [] ≡ []
unfolding encode
encode_nil = refl

pub encode_cons : (c : ℕ) (cs : List ℕ) → encode (c ∷ cs) ≡ encode_utf8 c ++ encode cs
unfolding encode
encode_cons c cs = refl

pub length-encode_cons :
    (c : ℕ) (cs : List ℕ) → length (encode (c ∷ cs)) ≡ len_utf8 c + length (encode cs)
unfolding encode
length-encode_cons c cs =
    omega (arith, length-append (encode_utf8 c) (encode cs), length-encode_utf8 c)

-- A character has a byte at least.
pub length-encode_le : (cs : List ℕ) → length cs ≤ length (encode cs)
length-encode_le [] = omega arith
length-encode_le (c ∷ cs) =
    omega (arith, length-encode_cons c cs, len_utf8_pos c, length-encode_le cs)

All-append : (xs ys : List ℕ) → All IsScalar xs → All IsScalar ys → All IsScalar (xs ++ ys)
All-append [] ys h k = k
All-append (x ∷ xs) ys (h, hs) k = (h, All-append xs ys hs k)

pub All-parts : (xs ys : List ℕ) → All IsScalar (xs ++ ys) → All IsScalar xs × All IsScalar ys
All-parts [] ys h = (tt, h)
All-parts (x ∷ xs) ys (h, hs) = let (a, b) = All-parts xs ys hs in ((h, a), b)

get_or-append_ge :
    (xs ys : List ℕ) (i d : ℕ) → length xs ≤ i → get_or (xs ++ ys) i d ≡ get_or ys (i - length xs) d
get_or-append_ge [] ys i d h = ap (λ k. get_or ys k d) (omega arith)
get_or-append_ge (x ∷ xs) ys zero d h = absurd (omega arith)
get_or-append_ge (x ∷ xs) ys (suc i) d h =
    get_or-append_ge xs ys i d (omega arith) ∙ ap (λ k. get_or ys k d) (omega arith)

-- Past the first part a boundary is one of the second part.
pub boundary-append :
    (xs ys : List ℕ) (i : ℕ)
    → length xs ≤ i
    → is_char_boundary (xs ++ ys) i ≡ true
    → is_char_boundary ys (i - length xs) ≡ true
unfolding is_char_boundary
boundary-append xs ys i h b = ground (arith, b, get_or-append_ge xs ys i 0 h, length-append xs ys)

-- The bytes behind the first are continuation bytes.
later_byte :
    (c : ℕ) (r : List ℕ) (i : ℕ)
    → IsScalar c
    → suc i < len_utf8 c
    → is_continuation (get_or (encode_utf8 c ++ r) (suc i) 0) ≡ true
unfolding encode_utf8 len_utf8
later_byte c r zero s lt = ground arith
later_byte c r (suc zero) s lt = ground arith
later_byte c r (suc (suc zero)) s lt = ground arith
later_byte c r (suc (suc (suc i))) s lt = ground arith

-- No boundary is inside a character.
inner_byte :
    (c : ℕ) (r : List ℕ) (i : ℕ)
    → IsScalar c
    → suc i < len_utf8 c
    → is_char_boundary (encode_utf8 c ++ r) (suc i) ≡ false
unfolding is_char_boundary
inner_byte c r i s lt =
    let zero_test : (suc i == 0) ≡ false = ground arith in
    let end_test : leb (length (encode_utf8 c ++ r)) (suc i) ≡ false =
      ground (arith, length-append (encode_utf8 c) r, length-encode_utf8 c) in
    rw (zero_test, end_test, later_byte c r i s lt)

-- A text cut in two.
pub record Cut (cs : List ℕ) (i : ℕ) : Type 0 where
  pub before : List ℕ
  pub after : List ℕ
  pub joined : cs ≡ before ++ after
  pub at : length (encode before) ≡ i

boundary-Cut :
    (cs : List ℕ) (i : ℕ) → All IsScalar cs → is_char_boundary (encode cs) i ≡ true → Cut cs i
boundary-Cut [] i s b = record {
  before = [];
  after = [];
  joined = refl;
  at = unfold encode in omega (arith, boundary_le (encode []) i b);
}
boundary-Cut (c ∷ cs) zero s b = record {
  before = [];
  after = c ∷ cs;
  joined = refl;
  at = unfold encode in refl;
}
boundary-Cut (c ∷ cs) (suc i) (s, ss) b = elim (dec_lt (suc i) (len_utf8 c)) [
  | yes inside ↦
      (let b' : is_char_boundary (encode_utf8 c ++ encode cs) (suc i) ≡ true = unfold encode in b in
        cc (inner_byte c (encode cs) i s inside))
  | no past ↦
      let after_first =
        boundary-append (encode_utf8 c) (encode cs) (suc i) (omega (arith, length-encode_utf8 c))
          (unfold encode in b) in
      let cut = boundary-Cut cs (suc i - length (encode_utf8 c)) ss after_first in
      record {
        before = c ∷ cut.before;
        after = cut.after;
        joined = ap (λ t. c ∷ t) cut.joined;
        at = omega (arith, length-encode_cons c cut.before, cut.at, length-encode_utf8 c);
      }
]

-- A `str` can be cut at its boundaries, and two of them joined.
module _ (text : List ℕ) (i : ℕ) (b : is_char_boundary text i ≡ true) (u : IsUtf8 text) where
  cut : Cut u.chars i
  cut = boundary-Cut u.chars i u.scalars (rw u.encoded b)

  parts : text ≡ encode cut.before ++ encode cut.after
  parts = sym u.encoded ∙ ap encode cut.joined ∙ encode-append cut.before cut.after

  IsScalar-parts : All IsScalar cut.before × All IsScalar cut.after
  IsScalar-parts = All-parts cut.before cut.after (rw cut.joined at u.scalars)

  pub IsUtf8-take : IsUtf8 (take i text)
  IsUtf8-take = record {
    chars = cut.before;
    scalars = IsScalar-parts.0;
    encoded = sym (ap (take i) parts ∙ take-append_eq i (encode cut.before) _ (sym cut.at));
  }

  pub IsUtf8-drop : IsUtf8 (drop i text)
  IsUtf8-drop = record {
    chars = cut.after;
    scalars = IsScalar-parts.1;
    encoded = sym (ap (drop i) parts ∙ drop-append_eq i (encode cut.before) _ (sym cut.at));
  }

pub IsUtf8-append : (s t : List ℕ) → IsUtf8 s → IsUtf8 t → IsUtf8 (s ++ t)
IsUtf8-append s t u v = record {
  chars = u.chars ++ v.chars;
  scalars = All-append u.chars v.chars u.scalars v.scalars;
  encoded =
      encode-append u.chars v.chars
      ∙ ap (λ x. x ++ encode v.chars) u.encoded
      ∙ ap (λ x. s ++ x) v.encoded;
}

pub IsUtf8-nil : IsUtf8 []
IsUtf8-nil = record { chars = []; scalars = tt; encoded = unfold encode in refl }

pub IsUtf8-encode_utf8 : (c : ℕ) → IsScalar c → IsUtf8 (encode_utf8 c)
IsUtf8-encode_utf8 c s = record {
  chars = c ∷ [];
  scalars = (s, tt);
  encoded = unfold encode in append-nil (encode_utf8 c);
}

-- Each byte below 128 is a character.
pub ascii-IsUtf8 : (text : List ℕ) → All (λ b. b < 0x80) text → IsUtf8 text
ascii-IsUtf8 [] h = IsUtf8-nil
ascii-IsUtf8 (b ∷ text) (h, hs) =
    let one : IsUtf8 (encode_utf8 b) = IsUtf8-encode_utf8 b (inl (omega arith)) in
    IsUtf8-append (b ∷ []) text (rw (one_byte b h) at one) (ascii-IsUtf8 text hs)
