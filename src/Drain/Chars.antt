-- ===== src/Drain/Chars.antt =====
-- `Chars` of the standard library: a `str` read from both ends, and the list of characters that it
-- behaves as.
use smartstring.Utf8.Laws.{
  len_utf8_pos, last_char-encode, last_char-nil, length-encode_utf8, first_char-encode,
  first_char-nil,
}
use smartstring.Utf8.Boundary.{
  length-encode_cons, encode-append, All-parts, encode_cons, encode_nil,
}
use smartstring.Utf8.{encode_utf8, encode, len_utf8, IsScalar, last_char, first_char}
use smartstring.Prelude.{
  suc, zero, ◌≤◌, ◌+◌, ◌/◌, take-append_eq, drop-append_eq, ℕ, ◌-◌, ◌≡◌, ◌∙◌, refl, sym, ap, List,
  [], ◌∷◌, ◌++◌, Option, none, some, arith, length, take, drop, length-append, append-nil, All,
}

after : Option ℕ → List ℕ → Option ℕ × List ℕ
after none text = (none, text)
after (some ch) text = (some ch, drop (len_utf8 ch) text)

before : Option ℕ → List ℕ → Option ℕ × List ℕ
before none text = (none, text)
before (some ch) text = (some ch, take (length text - len_utf8 ch) text)

pub next : List ℕ → Option ℕ × List ℕ
unfolding after
next text = after (first_char text) text

pub next_back : List ℕ → Option ℕ × List ℕ
unfolding before
next_back text = before (last_char text) text

-- Of `n` bytes there are as many characters as bytes at most, and a quarter of them, rounded up, at
-- least.
pub size_hint : List ℕ → ℕ × Option ℕ
size_hint text = ((length text + 3) / 4, some (length text))

-- The same on the characters.
unfoldable pub pop_front : List ℕ → Option ℕ × List ℕ
pop_front [] = (none, [])
pop_front (c ∷ cs) = (some c, cs)

pub pop_back : List ℕ → Option ℕ × List ℕ
pop_back [] = (none, [])
pop_back (c ∷ []) = (some c, [])
pop_back (c ∷ d ∷ cs) = let (item, rest) = pop_back (d ∷ cs) in (item, c ∷ rest)

pub next-pop_front :
    (cs : List ℕ) → All IsScalar cs → next (encode cs) ≡ ((pop_front cs).0, encode (pop_front cs).1)
unfolding next after pop_front
next-pop_front [] s = rw (encode_nil, first_char-nil) refl
next-pop_front (c ∷ cs) (s, ss) =
    rw (encode_cons c cs, first_char-encode c (encode cs) s)
      (ap (λ t. (some c, t))
        (drop-append_eq (len_utf8 c) (encode_utf8 c) (encode cs) (sym (length-encode_utf8 c))))

-- The last character, and the ones before it.
pop_back-append :
    (c : ℕ) (cs : List ℕ)
    → (ch : ℕ) × ((pop_back (c ∷ cs)).0 ≡ some ch) × (c ∷ cs ≡ (pop_back (c ∷ cs)).1 ++ (ch ∷ []))
unfolding pop_back
pop_back-append c [] = (c, refl, refl)
pop_back-append c (d ∷ cs) =
    let (ch, last, split) = pop_back-append d cs in (ch, last, ap (λ t. c ∷ t) split)

pub next_back-pop_back :
    (cs : List ℕ)
    → All IsScalar cs
    → next_back (encode cs) ≡ ((pop_back cs).0, encode (pop_back cs).1)
unfolding next_back before pop_back
next_back-pop_back [] s = rw (encode_nil, last_char-nil) refl
next_back-pop_back (c ∷ cs) s =
    let (ch, last, split) = pop_back-append c cs in
    let front = (pop_back (c ∷ cs)).1 in
    let whole : (xs : List ℕ) → c ∷ cs ≡ xs → All IsScalar xs = λ xs e. rw (← e) s in
    let scalar : IsScalar ch = (All-parts front (ch ∷ []) (whole _ split)).1.0 in
    let bytes : encode (c ∷ cs) ≡ encode front ++ encode_utf8 ch =
      ap encode split
      ∙ encode-append front (ch ∷ [])
      ∙ ap (λ t. encode front ++ t)
          (encode_cons ch []
            ∙ ap (λ t. encode_utf8 ch ++ t) encode_nil
            ∙ append-nil (encode_utf8 ch)) in
    rw (bytes, last_char-encode (encode front) ch scalar, last)
      (ap (λ t. (some ch, t))
        (take-append_eq _ (encode front) (encode_utf8 ch)
          (omega (arith, length-append (encode front) (encode_utf8 ch), length-encode_utf8 ch))))

pub pop_front-All : (cs : List ℕ) → All IsScalar cs → All IsScalar (pop_front cs).1
unfolding pop_front
pop_front-All [] s = tt
pop_front-All (c ∷ cs) (s, ss) = ss

pub pop_back-All : (cs : List ℕ) → All IsScalar cs → All IsScalar (pop_back cs).1
unfolding pop_back
pop_back-All [] s = tt
pop_back-All (c ∷ []) s = tt
pop_back-All (c ∷ d ∷ cs) (s, ss) = (s, pop_back-All (d ∷ cs) ss)

-- All the characters, by as many calls as the text has bytes.
collect_from : ℕ → List ℕ → List ℕ
collect_from zero text = []
collect_from (suc n) text =
    let (item, rest) = next text in
    let chs = collect_from n rest in elim item [ none ↦ [] | some ch ↦ ch ∷ chs ]

pub collect : List ℕ → List ℕ
unfolding collect_from
collect text = collect_from (length text) text

collect_from-encode :
    (n : ℕ) (cs : List ℕ)
    → All IsScalar cs
    → length (encode cs) ≤ n
    → collect_from n (encode cs) ≡ cs
unfolding collect_from pop_front
collect_from-encode zero [] s le = refl
collect_from-encode zero (c ∷ cs) (s, ss) le =
    absurd (omega (arith, le, length-encode_cons c cs, len_utf8_pos c))
collect_from-encode (suc n) [] s le = rw (next-pop_front [] tt, collect_from) refl
collect_from-encode (suc n) (c ∷ cs) (s, ss) le =
    rw (next-pop_front (c ∷ cs) (s, ss), collect_from)
      (ap (λ p. c ∷ collect_from n p.1) (next-pop_front (c ∷ cs) (s, ss))
        ∙ ap (λ t. c ∷ t)
            (collect_from-encode n cs ss
              (omega (arith, le, length-encode_cons c cs, len_utf8_pos c))))

-- They are enough.
pub collect-encode : (cs : List ℕ) → All IsScalar cs → collect (encode cs) ≡ cs
unfolding collect
collect-encode cs s = collect_from-encode (length (encode cs)) cs s (omega arith)
