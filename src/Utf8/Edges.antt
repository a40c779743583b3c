-- ===== src/Utf8/Edges.antt =====
-- The first character of a text, and the last.
use smartstring.Prelude.{
  ℕ, ◌≡◌, ◌∙◌, refl, sym, ap, ◌⊎◌, inl, inr, List, [], ◌∷◌, ◌++◌, All, append_assoc, append-nil,
}
use smartstring.Utf8.{IsScalar, IsUtf8, encode_utf8, encode}
use smartstring.Utf8.Boundary.{IsUtf8-append, IsUtf8-encode_utf8, IsUtf8-nil}

-- A text that is not empty begins with a character, and ends with one.
pub record Begins (text : List ℕ) : Type 0 where
  pub ch : ℕ
  pub scalar : IsScalar ch
  pub rest : List ℕ
  pub rest_utf8 : IsUtf8 rest
  pub split : text ≡ encode_utf8 ch ++ rest

pub IsUtf8-Begins : (text : List ℕ) → IsUtf8 text → (text ≡ []) ⊎ Begins text
IsUtf8-Begins text u = go u.chars u.scalars u.encoded
  where
    go : (cs : List ℕ) → All IsScalar cs → encode cs ≡ text → (text ≡ []) ⊎ Begins text
    go [] s e = inl (sym e ∙ unfold encode in refl)
    go (c ∷ cs) (s, ss) e = inr (record {
      ch = c;
      scalar = s;
      rest = encode cs;
      rest_utf8 = record { chars = cs; scalars = ss; encoded = refl };
      split = sym e ∙ unfold encode in refl;
    })

pub record Ends (text : List ℕ) : Type 0 where
  pub ch : ℕ
  pub scalar : IsScalar ch
  pub front : List ℕ
  pub front_utf8 : IsUtf8 front
  pub split : text ≡ front ++ encode_utf8 ch

pub IsUtf8-Ends : (cs : List ℕ) → All IsScalar cs → (encode cs ≡ []) ⊎ Ends (encode cs)
IsUtf8-Ends [] s = inl (unfold encode in refl)
IsUtf8-Ends (c ∷ cs) (s, ss) = elim (IsUtf8-Ends cs ss) [
  | inl empty ↦ inr (record {
    ch = c;
    scalar = s;
    front = [];
    front_utf8 = IsUtf8-nil;
    split = unfold encode in (ap (λ t. encode_utf8 c ++ t) empty ∙ append-nil (encode_utf8 c));
  })
  | inr e ↦ inr (record {
    ch = e.ch;
    scalar = e.scalar;
    front = encode_utf8 c ++ e.front;
    front_utf8 = IsUtf8-append (encode_utf8 c) e.front (IsUtf8-encode_utf8 c s) e.front_utf8;
    split =
        unfold encode in
        (ap (λ t. encode_utf8 c ++ t) e.split
          ∙ sym (append_assoc (encode_utf8 c) e.front (encode_utf8 e.ch)));
  })
]
