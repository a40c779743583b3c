-- ===== src/Ops/Retain/Laws.antt =====
-- The loop of `Retain` ends, and does what `scan` says: on every string that holds the characters.
use smartstring.Utf8.Boundary.{encode_nil, encode_cons}
use smartstring.Prelude.{
  ℕ, zero, suc, ◌-◌, ◌≤◌, ◌≡◌, ◌∙◌, refl, sym, ap, inl, inr, true, false, List, [], ◌∷◌, ◌++◌,
  arith, ltb, Option-cases, length, length-append, append_assoc, append-nil, All,
}
use smartstring.Run.{Run, panicked}
use smartstring.Ops.Splice.{Room}
use smartstring.Utf8.{encode_utf8, encode, IsScalar}
use smartstring.Ops.Retain.Scan.{
  scan_goes, scan_stops, finished, stopped, kept_first, scan, kept_first, over, Scan,
}
use smartstring.Ops.Retain.{loop, Predicate}
use smartstring.Generic.{Holds-trans, Holds-self, Holds-text, Leaves, Holds, GenericString}
use smartstring.Ops.Retain.Rounds.{round_stops, round_keeps, round_deletes}

joined :
    (kept : List ℕ) (c : ℕ) (cs : List ℕ)
    → (kept ++ encode_utf8 c) ++ encode cs ≡ kept ++ encode (c ∷ cs)
joined kept c cs =
    append_assoc kept (encode_utf8 c) (encode cs) ∙ sym (ap (λ t. kept ++ t) (encode_cons c cs))

-- How the loop ends, as `scan` says: the bytes that are kept stand over the start of the text, and
-- the answer is how many bytes the others had.
module _ {S E : Type 0} ⦃g : GenericString S⦄ where
  abbrev pub Loops : S → List ℕ → List ℕ → Scan E → Run S (ℕ × E) → Type 0
  Loops s text kept (finished cs e) run =
      (length (kept ++ encode cs) ≤ length text)
      × Leaves s (over (kept ++ encode cs) text) (length text - length (kept ++ encode cs), e) run
  Loops s text kept (stopped cs) run =
      (s' : S) × (run ≡ panicked s') × Holds s (over (kept ++ encode cs) text) s'

  Loops-kept :
      {s s1 : S} {u : List ℕ} (text kept : List ℕ) (c : ℕ) (sc : Scan E) (run : Run S (ℕ × E))
      → Holds s u s1
      → Loops s1 text (kept ++ encode_utf8 c) sc run
      → Loops s text kept (kept_first true c sc) run
  unfolding kept_first
  Loops-kept text kept c (finished cs e) run h (le, (s', done_eq, held)) =
      rw (← joined kept c cs) (le, (s', done_eq, Holds-trans h held))
  Loops-kept text kept c (stopped cs) run h (s', stop, held) =
      rw (← joined kept c cs) (s', stop, Holds-trans h held)

  module _ (f : Predicate E) where
    -- The last round.
    loop_end :
        (fuel : ℕ) (kept past : List ℕ) (e : E) (s : S)
        → length kept ≤ length past
        → g.IsWf s
        → g.deref s ≡ over kept past
        → Loops s past kept
            (finished [] e)
            (loop f (suc fuel) (length past) (length past - length kept) (length past) e s)
    unfolding loop
    loop_end fuel kept past e s le w t =
        let stop : ltb (length past) (length past) ≡ false = ground arith in
        let none_left : kept ++ encode [] ≡ kept =
          ap (λ u. kept ++ u) encode_nil ∙ append-nil kept in
        rw (none_left, stop) (le, (s, refl, Holds-text t (Holds-self s w)))

    -- The loop ends before its fuel does.
    pub loop-Loops :
        (cs : List ℕ) (fuel : ℕ) (kept past : List ℕ) (e : E) (s : S)
        → length cs ≤ fuel
        → All IsScalar cs
        → length kept ≤ length past
        → g.IsWf s
        → g.deref s ≡ over kept (past ++ encode cs)
        → Room s (length (past ++ encode cs))
        → Loops s (past ++ encode cs) kept (scan f cs e) (
            loop f
              (suc fuel)
              (length (past ++ encode cs))
              (length past - length kept)
              (length past)
              e
              s)
    unfolding scan kept_first
    loop-Loops [] fuel kept past e s enough scalars le w t r =
        let nil : past ++ encode [] ≡ past = ap (λ u. past ++ u) encode_nil ∙ append-nil past in
        rw nil (loop_end fuel kept past e s le w (t ∙ ap (over kept) nil))
    loop-Loops (c ∷ cs) zero kept past e s enough scalars le w t r = absurd (omega arith)
    loop-Loops (c ∷ cs) (suc fuel) kept past e s enough (scalar, scalars) le w t r =
        let cons : past ++ encode (c ∷ cs) ≡ past ++ (encode_utf8 c ++ encode cs) =
          ap (λ u. past ++ u) (encode_cons c cs) in
        let assoc : (past ++ encode_utf8 c) ++ encode cs ≡ past ++ (encode_utf8 c ++ encode cs) =
          append_assoc past (encode_utf8 c) (encode cs) in
        let t' = rw cons at t in
        let r' = rw cons at r in
        let past_size = length-append past (encode_utf8 c) in
        rw cons (elim (Option-cases (f c e)) [
          | inl stop ↦
              let nothing : kept ++ encode [] ≡ kept =
                ap (λ u. kept ++ u) encode_nil ∙ append-nil kept in
              rw
                (
                  scan_stops f c cs e stop,
                  nothing,
                  round_stops f (suc fuel) kept past c (encode cs) e s le scalar t' stop,
                )
                (s, refl, Holds-text t' (Holds-self s w))
          | inr ((true, e'), keep) ↦
              let (s1, held, run) =
                round_keeps f (suc fuel) kept past c (encode cs) e s le scalar t' w r' e' keep in
              rw (scan_goes f c cs e true e' keep, run)
                (Loops-kept _ kept c (scan f cs e') _ held (
                  rw assoc at (
                    loop-Loops cs fuel (kept ++ encode_utf8 c) (past ++ encode_utf8 c) e' s1
                      (omega (arith, enough)) scalars
                      (omega (arith, le, past_size, length-append kept (encode_utf8 c))) held.wf
                      (held.text_eq ∙ ap (over (kept ++ encode_utf8 c)) (sym assoc))
                      (record {
                        enough = omega (arith, r'.enough, held.room, ap length assoc);
                        addressable = omega (arith, held.room, r'.addressable);
                      }))))
          | inr ((false, e'), delete) ↦
              rw
                (
                  scan_goes f c cs e false e' delete,
                  round_deletes f (suc fuel) kept past c (encode cs) e s le scalar t' w r' e'
                      delete,
                )
                (rw assoc at (
                  loop-Loops cs fuel kept (past ++ encode_utf8 c) e' s (omega (arith, enough))
                    scalars (omega (arith, le, past_size)) w (t' ∙ ap (over kept) (sym assoc))
                    (record {
                      enough = omega (arith, r'.enough, ap length assoc);
                      addressable = r'.addressable;
                    })))
        ])
