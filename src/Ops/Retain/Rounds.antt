-- ===== src/Ops/Retain/Rounds.antt =====
-- The rounds of the loop of `Retain`.
use smartstring.Prelude.{
  uadd, ℕ, suc, ◌-◌, ◌≤◌, ◌≡◌, refl, Bool, true, false, List, ◌++◌, none, some, arith, ltb,
  if◌then◌else◌, length, length-append,
}
use smartstring.Run.{panicked, and_then}
use smartstring.Utf8.Laws.{first_char-encode, len_utf8_pos, length-encode_utf8}
use smartstring.Ops.Splice.{Room}
use smartstring.Utf8.{encode_utf8, len_utf8, IsScalar}
use smartstring.Ops.Retain.Scan.{over}
use smartstring.Ops.Retain.{loop, keep_char, Predicate}
use smartstring.Generic.{Holds, GenericString}
use smartstring.Ops.Retain.Char.{tail_eq, keeps}

module _ {S E : Type 0} ⦃g : GenericString S⦄ (f : Predicate E) where
  -- One round.
  module _ (fuel : ℕ) (kept past : List ℕ) (c : ℕ) (rest : List ℕ) (e : E) (s : S)
      (le : length kept ≤ length past) (scalar : IsScalar c)
      (t : g.deref s ≡ over kept (past ++ (encode_utf8 c ++ rest))) where
    more : ltb (length past) (length (past ++ (encode_utf8 c ++ rest))) ≡ true
    more = ground (
      arith,
      length-append past (encode_utf8 c ++ rest),
      length-append (encode_utf8 c) rest,
      length-encode_utf8 c,
      len_utf8_pos c,
    )

    pub round_stops :
        f c e ≡ none
        → loop f
            (suc fuel)
            (length (past ++ (encode_utf8 c ++ rest)))
            (length past - length kept)
            (length past)
            e
            s
          ≡ panicked s
    unfolding loop
    round_stops stop =
        rw (more, t, tail_eq kept past c rest le scalar, first_char-encode c rest scalar, stop) refl

    round_goes :
        (keep : Bool) (e' : E)
        → f c e ≡ some (keep, e')
        → loop f
            (suc fuel)
            (length (past ++ (encode_utf8 c ++ rest)))
            (length past - length kept)
            (length past)
            e
            s
          ≡ and_then
              (keep_char f keep (length past - length kept) (length past) (len_utf8 c) s)
              (λ _.
                loop f fuel
                  (length (past ++ (encode_utf8 c ++ rest)))
                  (if keep
                    then length past - length kept
                    else uadd (length past - length kept) (len_utf8 c))
                  (uadd (length past) (len_utf8 c))
                  e')
    unfolding loop
    round_goes keep e' answer =
        rw (more, t, tail_eq kept past c rest le scalar, first_char-encode c rest scalar, answer)
          refl

    text : List ℕ
    text = past ++ (encode_utf8 c ++ rest)

    module _ (w : g.IsWf s) (r : Room s (length (past ++ (encode_utf8 c ++ rest)))) where
      index_eq : uadd (length past) (len_utf8 c) ≡ length (past ++ encode_utf8 c)
      index_eq = omega (
        arith,
        r.enough,
        r.addressable,
        length-append past (encode_utf8 c),
        length-append past (encode_utf8 c ++ rest),
        length-append (encode_utf8 c) rest,
        length-encode_utf8 c,
      )

      -- The character is kept.
      pub round_keeps :
          (e' : E)
          → f c e ≡ some (true, e')
          → (s1 : S) × Holds s (over (kept ++ encode_utf8 c) (past ++ (encode_utf8 c ++ rest))) s1
            × (loop f
                  (suc fuel)
                  (length (past ++ (encode_utf8 c ++ rest)))
                  (length past - length kept)
                  (length past)
                  e
                  s
                ≡ loop f fuel
                    (length (past ++ (encode_utf8 c ++ rest)))
                    (length (past ++ encode_utf8 c) - length (kept ++ encode_utf8 c))
                    (length (past ++ encode_utf8 c))
                    e'
                    s1)
      round_keeps e' answer =
          let (s1, run, held) = keeps f kept past c rest le s w t r in
          let gap : length past - length kept
              ≡ length (past ++ encode_utf8 c) - length (kept ++ encode_utf8 c) =
            omega (arith, length-append past (encode_utf8 c), length-append kept (encode_utf8 c)) in
          (s1, held, rw (round_goes true e' answer, run, index_eq, ← gap) refl)

      -- It is deleted.
      pub round_deletes :
          (e' : E)
          → f c e ≡ some (false, e')
          → loop f
              (suc fuel)
              (length (past ++ (encode_utf8 c ++ rest)))
              (length past - length kept)
              (length past)
              e
              s
            ≡ loop f fuel
                (length (past ++ (encode_utf8 c ++ rest)))
                (length (past ++ encode_utf8 c) - length kept)
                (length (past ++ encode_utf8 c))
                e'
                s
      unfolding keep_char
      round_deletes e' answer =
          let gap : uadd (length past - length kept) (len_utf8 c)
              ≡ length (past ++ encode_utf8 c) - length kept =
            omega (
              arith,
              le,
              index_eq,
              length-append past (encode_utf8 c),
              length-encode_utf8 c,
              r.enough,
              r.addressable,
              length-append past (encode_utf8 c ++ rest),
            ) in
          rw (round_goes false e' answer, index_eq, gap) refl
