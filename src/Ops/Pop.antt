-- ===== src/Ops/Pop.antt =====
-- `Pop` of ops.rs.
use smartstring.Prelude.{
  ℕ, ◌-◌, ◌≤◌, ◌≡◌, ap, List, Option, none, some, arith, length, take, usub, usub-eq,
}
use smartstring.Run.{M, pure, gets, ◌>>=◌, ◌>>◌, on_first, on_first-done}
use smartstring.Generic.{GenericString, len, resize, Holds-self, Holds-cut}
use smartstring.Utf8.{len_utf8, last_char}
use smartstring.Ops.{ShrinkOp}
use smartstring.Ops.Splice.{Shrinks}

module _ {S : Type 0} ⦃g : GenericString S⦄ where
  pop_char : Option ℕ → M S (Option ℕ)
  pop_char none = pure none
  pop_char (some ch) = do n ← gets len; resize (usub n (len_utf8 ch)); pure (some ch)

  -- `?` returns early where there is no last character.
  pub op : M S (Option ℕ)
  unfolding pop_char
  op = do text ← gets g.deref; pop_char (last_char text)

pub shrink : ShrinkOp (Option ℕ)
shrink = record { op = λ S g. on_first (op ⦃g = g⦄) }

pub shrink-Shrinks :
    (ch : ℕ) (text : List ℕ)
    → last_char text ≡ some ch
    → len_utf8 ch ≤ length text
    → Shrinks shrink text (take (length text - len_utf8 ch) text) (some ch)
unfolding shrink op
shrink-Shrinks ch text last le S g s h w e r = (
  g.set_size s (length text - len_utf8 ch),
  on_first-done (op ⦃g = g⦄) s h (
      rw (
        e,
        last,
        op,
        e,
        usub-eq (length text) (len_utf8 ch) le (omega (arith, r.enough, r.addressable)),
      )),
  rw e at (Holds-cut ⦃g = g⦄ s w (length text - len_utf8 ch) (omega (arith, ap length e))),
)

pub shrink_empty : (text : List ℕ) → last_char text ≡ none → Shrinks shrink text text none
unfolding shrink op
shrink_empty text last S g s h w e r =
    (s, on_first-done (op ⦃g = g⦄) s h (rw (e, last, op)), rw e at (Holds-self ⦃g = g⦄ s w))
