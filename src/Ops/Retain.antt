-- ===== src/Ops/Retain.antt =====
-- `Retain` of ops.rs.
pub mod Scan
pub mod Char
pub mod Rounds
pub mod Laws
pub mod Shrinks
use smartstring.Utf8.{len_utf8, first_char, get_range}
use smartstring.Prelude.{
  usub, uadd, ℕ, zero, suc, ◌+◌, ◌-◌, ◌*◌, ◌≤◌, ◌<◌, ◌≡◌, ◌∙◌, ◌↔◌, ◌⊎◌, refl, sym, ap, inl, inr,
  Bool, true, false, not, ◌&&◌, ◌||◌, List, [], ◌∷◌, ◌++◌, Option, none, some, arith, ltb, leb,
  ◌==◌, if◌then◌else◌, Bool-cases, Option-cases, length, take, drop, length-append, append_assoc,
  append-nil, All,
}
use smartstring.Run.{
  Run, M, done, panicked, aborted, undefined, diverged, pure, panic, gets, unwrap, assert, ◌>>=◌,
  ◌>>◌, and_then, map_state, on_first, on_second,
}
use smartstring.Slice.{copy_within}
use smartstring.Ops.{ShrinkOp}
use smartstring.Generic.{resize, len, edit, GenericString}

-- A predicate with a state of its own, as an `FnMut` has; `none` is a panic.
abbrev pub Predicate : Type 0 → Type 0
Predicate E = ℕ → E → Option (Bool × E)

module _ {S E : Type 0} ⦃g : GenericString S⦄ (f : Predicate E) where
  -- A character that is kept moves down over the bytes that were deleted before it.
  pub keep_char : Bool → ℕ → ℕ → ℕ → M S (Unit {0})
  keep_char keep del_bytes index ch_len =
      if keep
      then (if ltb 0 del_bytes
          then edit (copy_within index (uadd index ch_len) (usub index del_bytes))
          else pure tt)
      else pure tt

  -- The `while` loop, which answers `del_bytes`. Each round needs a unit of fuel.
  pub loop : ℕ → ℕ → ℕ → ℕ → E → M S (ℕ × E)
  unfolding keep_char
  loop zero len del_bytes index e = λ s. diverged
  loop (suc fuel) len del_bytes index e =
      if ltb index len
      then (do
        text ← gets g.deref
        tail ← unwrap (get_range text index len)
        ch ← unwrap (first_char tail)
        let ch_len = len_utf8 ch
        (keep, e') ← unwrap (f ch e)
        keep_char keep del_bytes index ch_len
        loop fuel len (if keep then del_bytes else uadd del_bytes ch_len) (uadd index ch_len) e')
      else pure (del_bytes, e)

  -- It answers the state that the predicate is left in.
  pub op : E → M S E
  unfolding loop
  op e = do
    n ← gets len
    (del_bytes, e') ← loop (n + 1) n 0 0 e
    if ltb 0 del_bytes then resize (usub n del_bytes) else pure tt
    pure e'

pub shrink : {E : Type 0} → Predicate E → E → ShrinkOp E
shrink f e = record { op = λ S g. on_first (op ⦃g = g⦄ f e) }
