-- ===== src/Ops/Truncate.antt =====
-- `Truncate` of ops.rs.
use smartstring.Prelude.{
  ℕ, ◌≤◌, ◌<◌, ◌≡◌, ap, true, false, List, arith, ltb, if◌then◌else◌, length, take,
}
use smartstring.Run.{M, pure, gets, assert, ◌>>=◌, ◌>>◌, on_first, on_first-done, on_first-panicked}
use smartstring.Generic.{GenericString, len, resize, Holds-self, Holds-cut}
use smartstring.Utf8.{is_char_boundary}
use smartstring.Ops.{ShrinkOp}
use smartstring.Ops.Splice.{Shrinks, Panics}

module _ {S : Type 0} ⦃g : GenericString S⦄ where
  pub op : ℕ → M S (Unit {0})
  op new_len = do
    n ← gets len
    if ltb new_len n
        then (do text ← gets g.deref; assert (is_char_boundary text new_len); resize new_len)
        else pure tt

pub shrink : ℕ → ShrinkOp (Unit {0})
shrink new_len = record { op = λ S g. on_first (op ⦃g = g⦄ new_len) }

pub shrink-Shrinks :
    (new_len : ℕ) (text : List ℕ)
    → new_len < length text
    → is_char_boundary text new_len ≡ true
    → Shrinks (shrink new_len) text (take new_len text) tt
unfolding shrink op
shrink-Shrinks new_len text lt at_char S g s h w e r =
    let shorter : ltb new_len (length text) ≡ true = ground arith in
    (
      g.set_size s new_len,
      on_first-done (op ⦃g = g⦄ new_len) s h (rw (e, shorter, e, at_char)),
      rw e at (Holds-cut ⦃g = g⦄ s w new_len (omega (arith, ap length e))),
    )

-- A longer length does nothing.
pub shrink_beyond :
    (new_len : ℕ) (text : List ℕ) → length text ≤ new_len → Shrinks (shrink new_len) text text tt
unfolding shrink op
shrink_beyond new_len text le S g s h w e r =
    let longer : ltb new_len (length text) ≡ false = ground arith in
    (s, on_first-done (op ⦃g = g⦄ new_len) s h (rw (e, longer)), rw e at (Holds-self ⦃g = g⦄ s w))

pub shrink-Panics :
    (new_len : ℕ) (text : List ℕ)
    → new_len < length text
    → is_char_boundary text new_len ≡ false
    → Panics (shrink new_len) text
unfolding shrink op
shrink-Panics new_len text lt off S g s h e =
    let shorter : ltb new_len (length text) ≡ true = ground arith in
    on_first-panicked (op ⦃g = g⦄ new_len) s h (rw (e, shorter, e, off))
