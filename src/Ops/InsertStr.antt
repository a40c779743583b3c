-- ===== src/Ops/InsertStr.antt =====
-- `InsertStr` of ops.rs.
use smartstring.Prelude.{
  ℕ, ◌+◌, ◌-◌, ◌≤◌, ◌<◌, ◌≡◌, ap, true, false, List, Option, none, some, arith, if◌then◌else◌,
  length, uadd, uadd-eq, usize_mod,
}
use smartstring.Run.{M}
use smartstring.Generic.{GenericString, len}
use smartstring.Utf8.{is_char_boundary}
use smartstring.Ops.{GrowOp, insert_bytes}
use smartstring.Ops.Splice.{splice, Room-le, Grows, Refuses}
use smartstring.Ops.InsertBytes.{insert_bytes-Leaves, length-splice}
use smartstring.Utf8.Laws.{boundary_le}

module _ {S : Type 0} ⦃g : GenericString S⦄ where
  pub cap : ℕ → List ℕ → S → Option ℕ
  cap index string s =
      if is_char_boundary (g.deref s) index then some (uadd (len s) (length string)) else none

  pub op : ℕ → List ℕ → M S (Unit {0})
  op index string = insert_bytes index (string)

pub grow : ℕ → List ℕ → GrowOp (Unit {0})
grow index string = record {
  cap = λ S g s. cap ⦃g = g⦄ index string s;
  op = λ S g. op ⦃g = g⦄ index string;
}

pub grow-Grows :
    (index : ℕ) (string : List ℕ) (text : List ℕ)
    → is_char_boundary text index ≡ true
    → length text + length string < usize_mod
    → Grows (grow index string) text (splice index index (string) text) tt
unfolding grow cap op
grow-Grows index string text at_char h = record {
  needs = λ S g s w e. rw (e, at_char, uadd-eq _ _ h) (ap some (omega (arith, sized, inside)));
  leaves = λ S g s w e r. rw e at (
      insert_bytes-Leaves ⦃g = g⦄ s index w (omega (arith, inside, ap length e)) (string)
        (Room-le (omega (arith, sized, inside, ap length e)) r));
}
  where
    inside : index ≤ length text
    inside = boundary_le text index at_char

    sized :
        length (splice index index (string) text) ≡ index + length (string) + (length text - index)
    sized = length-splice index index (string) text (omega arith) inside

pub grow-Refuses :
    (index : ℕ) (string : List ℕ) (text : List ℕ)
    → is_char_boundary text index ≡ false
    → Refuses (grow index string) text
unfolding grow cap
grow-Refuses index string text off S g s e = rw (e, off)
