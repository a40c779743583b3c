-- ===== src/Ops/Retain/Shrinks.antt =====
-- `Retain` on every string that holds the characters `cs`.
use smartstring.Utf8.Boundary.{length-encode_le}
use smartstring.Ops.Retain.Scan.{length-over, over, finished, stopped, scan}
use smartstring.Ops.Retain.Laws.{loop-Loops, Loops}
use smartstring.Ops.Splice.{Shrinks, Breaks, Room}
use smartstring.Generic.{Holds-cut, Holds-text, Holds-trans, Leaves, Holds, GenericString}
use smartstring.Utf8.{encode, IsScalar}
use smartstring.Ops.Retain.{loop, op, shrink, Predicate}
use smartstring.Prelude.{
  drop_all, take-append_eq, usub, ℕ, suc, ◌+◌, ◌-◌, ◌≤◌, ◌≡◌, ◌∙◌, refl, sym, ap, inl, inr, List,
  [], ◌++◌, arith, ltb, Bool-cases, length, take, drop, append-nil, All,
}
use smartstring.Run.{on_first-done, on_first-panicked, done}

module _ {E : Type 0} (f : Predicate E) (e : E) (text cs : List ℕ) (scalars : All IsScalar cs)
    (split : encode cs ≡ text) where
  -- The loop from the start.
  module _ (S : Type 0) (g : GenericString S) (s : S) (w : g.IsWf s) (t : g.deref s ≡ text)
      (r : Room ⦃g = g⦄ s (length text)) where
    looped :
        Loops ⦃g = g⦄ s text []
          (scan f cs e)
          (loop ⦃g = g⦄ f (length text + 1) (length text) 0 0 e s)
    looped =
        let fuel : length text + 1 ≡ suc (length text) = omega arith in
        rw fuel (
          rw split at (
            loop-Loops ⦃g = g⦄ f cs (length text) [] [] e s
              (omega (arith, length-encode_le cs, ap length split)) scalars (omega arith) w
              (t ∙ sym split) (rw (sym split) at r)))

    -- The size is set to what is kept, unless nothing was deleted.
    resized :
        (ks : List ℕ) (e' : E) (s' : S)
        → length (encode ks) ≤ length text
        → loop ⦃g = g⦄ f (length text + 1) (length text) 0 0 e s
          ≡ done (length text - length (encode ks), e') s'
        → Holds ⦃g = g⦄ s (over (encode ks) text) s'
        → Leaves ⦃g = g⦄ s (encode ks) e' (op ⦃g = g⦄ f e s)
    unfolding op
    resized ks e' s' le run held =
        let k = length (encode ks) in
        let n = length text in
        let size : length (g.deref s') ≡ n =
          ap length held.text_eq ∙ length-over (encode ks) text le in
        elim (Bool-cases (ltb 0 (n - k))) [
          | inl deleted ↦
              let rest : usub n (n - k) ≡ k = omega (arith, le, r.enough, r.addressable) in
              (
                g.set_size s' k,
                rw (t, run, deleted, rest) refl,
                Holds-trans ⦃g = g⦄ held (
                    Holds-text ⦃g = g⦄
                      (ap (take k) held.text_eq ∙ take-append_eq k (encode ks) (drop k text) refl)
                      (Holds-cut ⦃g = g⦄ s' held.wf k (omega (arith, size, le)))),
              )
          | inr kept ↦
              let same : n ≤ k = ground (arith, le) in
              (
                s',
                rw (t, run, kept) refl,
                Holds-text ⦃g = g⦄
                    (ap (λ u. encode ks ++ u) (drop_all k text same) ∙ append-nil (encode ks)) held,
              )
        ]

  pub shrink-Breaks :
      (ks : List ℕ) → scan f cs e ≡ stopped ks → Breaks (shrink f e) text (over (encode ks) text)
  unfolding shrink op
  shrink-Breaks ks stop S g s h w t r =
      let (s', run, held) = rw stop at (looped S g s w t r) in
      (s', on_first-panicked (op ⦃g = g⦄ f e) s h (rw (t, run) refl), held)

  pub shrink-Shrinks :
      (ks : List ℕ) (e' : E)
      → scan f cs e ≡ finished ks e'
      → Shrinks (shrink f e) text (encode ks) e'
  unfolding shrink op
  shrink-Shrinks ks e' end S g s h w t r =
      let (le, (s', run, held)) = rw end at (looped S g s w t r) in
      let (s2, done_eq, kept) = resized S g s w t r ks e' s' le run held in
      (s2, on_first-done (op ⦃g = g⦄ f e) s h done_eq, kept)
