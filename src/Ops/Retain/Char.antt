-- ===== src/Ops/Retain/Char.antt =====
-- What a round of the loop of `Retain` does with the character that it reads.
use smartstring.Prelude.{
  usub, uadd, ℕ, ◌+◌, ◌-◌, ◌≤◌, ◌≡◌, ◌∙◌, refl, sym, ap, inl, inr, true, false, List, ◌++◌, some,
  arith, ltb, Bool-cases, length, drop, length-append,
}
use smartstring.Slice.{take-moved_all, copy_within-moved, copy_within, moved, length-moved}
use smartstring.Utf8.Laws.{get_range_of_char, length-encode_utf8}
use smartstring.Ops.Splice.{Room}
use smartstring.Utf8.{get_range, encode_utf8, len_utf8, IsScalar}
use smartstring.Ops.Retain.Scan.{
  length-over_past, over_past, moved-over, over_same, length-over, over,
}
use smartstring.Ops.Retain.{keep_char, Predicate}
use smartstring.Generic.{Holds-write, edit-some, Holds-self, Holds-text, Leaves, len, GenericString}

-- One character, with `kept` over the start of the bytes before it.
module _ {S E : Type 0} ⦃g : GenericString S⦄ (f : Predicate E) (kept past : List ℕ) (c : ℕ)
    (rest : List ℕ) (le : length kept ≤ length past) (s : S) (w : g.IsWf s)
    (e : g.deref s ≡ over kept (past ++ (encode_utf8 c ++ rest)))
    (r : Room s (length (past ++ (encode_utf8 c ++ rest)))) where
  size_eq : length (past ++ (encode_utf8 c ++ rest)) ≡ length past + (len_utf8 c + length rest)
  size_eq = omega (
    arith,
    length-append past (encode_utf8 c ++ rest),
    length-append (encode_utf8 c) rest,
    length-encode_utf8 c,
  )

  len_eq : len s ≡ length past + (len_utf8 c + length rest)
  len_eq =
      ap length e
      ∙ length-over kept (past ++ (encode_utf8 c ++ rest)) (omega (arith, le, size_eq))
      ∙ size_eq

  moves :
      ltb 0 (length past - length kept) ≡ true
      → Leaves s
          (over (kept ++ encode_utf8 c) (past ++ (encode_utf8 c ++ rest)))
          tt
          (keep_char f true (length past - length kept) (length past) (len_utf8 c) s)
  unfolding keep_char
  moves more =
      let i = length past in
      let l = len_utf8 c in
      let buf = g.capacity_slice s in
      let j : uadd i l ≡ i + l = omega (arith, size_eq, r.enough, r.addressable) in
      let d : usub i (i - length kept) ≡ length kept =
        omega (arith, le, size_eq, r.enough, r.addressable) in
      let inside : i + l ≤ length buf = omega (arith, size_eq, r.enough) in
      let target : length kept + (i + l - i) ≤ length buf = omega (arith, le, size_eq, r.enough) in
      let full = length-moved i (i + l) (length kept) buf (omega arith) inside target in
      (
        g.with_slice s (moved i (i + l) (length kept) buf),
        rw (more, j, d)
            (edit-some (copy_within i (i + l) (length kept)) s
              (copy_within-moved i (i + l) (length kept) buf (omega arith) inside target)),
        Holds-text
            (take-moved_all i (i + l) (length kept) buf (omega arith) inside target (len s)
                (omega (arith, len_eq)) (omega (arith, len_eq, le)) (g.wf_length s w)
              ∙ ap (moved i (i + l) (length kept)) (sym (g.wf_deref s w) ∙ e)
              ∙ ap
                  (λ n. moved i (i + n) (length kept) (over kept (past ++ (encode_utf8 c ++ rest))))
                  (sym (length-encode_utf8 c))
              ∙ moved-over kept past (encode_utf8 c) rest le)
            (Holds-write s w (moved i (i + l) (length kept) buf) full),
      )

  stays :
      ltb 0 (length past - length kept) ≡ false
      → Leaves s
          (over (kept ++ encode_utf8 c) (past ++ (encode_utf8 c ++ rest)))
          tt
          (keep_char f true (length past - length kept) (length past) (len_utf8 c) s)
  unfolding keep_char
  stays none_yet =
      let same : length kept ≡ length past = ground (arith, le) in
      (
        s,
        rw none_yet refl,
        Holds-text (e ∙ over_same kept past (encode_utf8 c) rest le same) (Holds-self s w),
      )

  pub keeps :
      Leaves s
        (over (kept ++ encode_utf8 c) (past ++ (encode_utf8 c ++ rest)))
        tt
        (keep_char f true (length past - length kept) (length past) (len_utf8 c) s)
  keeps = elim (Bool-cases (ltb 0 (length past - length kept))) [
    | inl more ↦ moves more
    | inr none_yet ↦ stays none_yet
  ]

-- Reading the character at the index.
pub tail_eq :
    (kept past : List ℕ) (c : ℕ) (rest : List ℕ)
    → length kept ≤ length past
    → IsScalar c
    → get_range
        (over kept (past ++ (encode_utf8 c ++ rest)))
        (length past)
        (length (past ++ (encode_utf8 c ++ rest)))
      ≡ some (encode_utf8 c ++ rest)
tail_eq kept past c rest le scalar =
    let front = kept ++ drop (length kept) past in
    let same : length front ≡ length past = length-over_past kept past (encode_utf8 c) rest le in
    let text_eq = over_past kept past (encode_utf8 c) rest le in
    let sized : length (front ++ (encode_utf8 c ++ rest))
        ≡ length (past ++ (encode_utf8 c ++ rest)) =
      omega (
        arith,
        same,
        length-append front (encode_utf8 c ++ rest),
        length-append past (encode_utf8 c ++ rest),
      ) in
    rw (text_eq, ← same, ← sized) (get_range_of_char front c rest scalar)
