-- ===== src/Ops/Retain/Scan.antt =====
-- What `Retain` does to a text, in terms of its characters alone.
use smartstring.Slice.{moved}
use smartstring.Prelude.{
  drop-drop, drop-append_ge, take-append_eq, drop-append_eq, length-drop, drop-append_le, ℕ, ◌+◌,
  ◌-◌, ◌≤◌, ◌≡◌, ◌∙◌, refl, sym, ap, Bool, true, false, List, [], ◌∷◌, ◌++◌, none, some, arith,
  length, take, drop, length-append, append_assoc,
}
use smartstring.Ops.Retain.{Predicate}

-- The characters that are kept, and the predicate's state at the end; or those that were kept when
-- the predicate panicked.
pub data Scan (E : Type 0) : Type 0 where
  finished : List ℕ → E → Scan E
  stopped : List ℕ → Scan E

unfoldable pub kept_first : {E : Type 0} → Bool → ℕ → Scan E → Scan E
kept_first false c s = s
kept_first true c (finished cs e) = finished (c ∷ cs) e
kept_first true c (stopped cs) = stopped (c ∷ cs)

unfoldable pub scan : {E : Type 0} → Predicate E → List ℕ → E → Scan E
unfolding kept_first
scan f [] e = finished [] e
scan f (c ∷ cs) e = elim (f c e) [
  | none ↦ stopped []
  | some (keep, e') ↦ kept_first keep c (scan f cs e')
]

module _ {E : Type 0} (f : Predicate E) (c : ℕ) (cs : List ℕ) (e : E) where
  pub scan_stops : f c e ≡ none → scan f (c ∷ cs) e ≡ stopped []
  unfolding scan
  scan_stops stop = rw (stop, scan) refl

  pub scan_goes :
      (keep : Bool) (e' : E)
      → f c e ≡ some (keep, e')
      → scan f (c ∷ cs) e ≡ kept_first keep c (scan f cs e')
  unfolding scan
  scan_goes keep e' answer = rw (answer, scan) refl

-- The text with some bytes written over its start.
abbrev pub over : List ℕ → List ℕ → List ℕ
over kept text = kept ++ drop (length kept) text

pub length-over :
    (kept text : List ℕ) → length kept ≤ length text → length (over kept text) ≡ length text
length-over kept text le =
    omega (arith, le, length-append kept (drop (length kept) text), length-drop (length kept) text)

-- A step of the loop on the text: `kept` has been written over the start of `past`, and the next
-- character has the bytes `char`.
module _ (kept past char rest : List ℕ) (le : length kept ≤ length past) where
  pub over_past :
      over kept (past ++ (char ++ rest)) ≡ (kept ++ drop (length kept) past) ++ (char ++ rest)
  over_past =
      ap (λ t. kept ++ t) (drop-append_le (length kept) past (char ++ rest) le)
      ∙ sym (append_assoc kept (drop (length kept) past) (char ++ rest))

  pub length-over_past : length (kept ++ drop (length kept) past) ≡ length past
  length-over_past =
      omega
        (arith, le, length-append kept (drop (length kept) past), length-drop (length kept) past)

  -- The character is moved down to the end of what is kept.
  pub moved-over :
      moved
        (length past)
        (length past + length char)
        (length kept)
        (over kept (past ++ (char ++ rest)))
      ≡ over (kept ++ char) (past ++ (char ++ rest))
  moved-over =
      let i = length past in
      let l = length char in
      let k = length kept in
      let text = past ++ (char ++ rest) in
      let width : i + l - i ≡ l = omega arith in
      let found : take l (drop i (over kept text)) ≡ char =
        ap (λ t. take l (drop i t)) over_past
        ∙ ap (take l) (drop-append_eq i (kept ++ drop k past) (char ++ rest) (sym length-over_past))
        ∙ take-append_eq l char rest refl in
      let behind : drop (k + l) (over kept text) ≡ drop (length (kept ++ char)) text =
        drop-append_ge (k + l) l kept (drop k text) refl
        ∙ drop-drop l k text
        ∙ ap (λ n. drop n text) (sym (length-append kept char)) in
      rw width (
        ap (λ t. t ++ (take l (drop i (over kept text)) ++ drop (k + l) (over kept text)))
          (take-append_eq k kept (drop k text) refl)
        ∙ ap (λ t. kept ++ (t ++ drop (k + l) (over kept text))) found
        ∙ ap (λ t. kept ++ (char ++ t)) behind
        ∙ sym (append_assoc kept char _))

  -- Where nothing was deleted the text is as it was.
  pub over_same :
      length kept ≡ length past
      → over kept (past ++ (char ++ rest)) ≡ over (kept ++ char) (past ++ (char ++ rest))
  over_same same =
      let text = past ++ (char ++ rest) in
      ap (λ t. kept ++ t) (drop-append_eq (length kept) past (char ++ rest) same)
      ∙ sym (append_assoc kept char rest)
      ∙ ap (λ t. (kept ++ char) ++ t)
          (sym (
            ap (λ n. drop n text) (length-append kept char)
            ∙ drop-append_ge (length kept + length char) (length char) past (char ++ rest)
                (omega (arith, same))
            ∙ drop-append_eq (length char) char rest refl))
