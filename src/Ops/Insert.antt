-- ===== src/Ops/Insert.antt =====
-- `Insert` of ops.rs.
use smartstring.Prelude.{
  ℕ, ◌+◌, ◌-◌, ◌≤◌, ◌<◌, ◌≡◌, ap, true, false, List, Option, none, some, arith, if◌then◌else◌,
  length, uadd, uadd-eq, usize_mod,
}
use smartstring.Run.{M}
use smartstring.Generic.{GenericString, len}
use smartstring.Utf8.{len_utf8, encode_utf8, is_char_boundary}
use smartstring.Ops.{GrowOp, insert_bytes}
use smartstring.Ops.Splice.{splice, Room-le, Grows, Refuses}
use smartstring.Ops.InsertBytes.{insert_bytes-Leaves, length-splice}
use smartstring.Utf8.Laws.{length-encode_utf8, boundary_le}

module _ {S : Type 0} ⦃g : GenericString S⦄ where
  pub cap : ℕ → ℕ → S → Option ℕ
  cap index ch s =
      if is_char_boundary (g.deref s) index then some (uadd (len s) (len_utf8 ch)) else none

  pub op : ℕ → ℕ → M S (Unit {0})
  op index ch = insert_bytes index (encode_utf8 ch)

pub grow : ℕ → ℕ → GrowOp (Unit {0})
grow index ch = record { cap = λ S g s. cap ⦃g = g⦄ index ch s; op = λ S g. op ⦃g = g⦄ index ch }

pub grow-Grows :
    (index : ℕ) (ch : ℕ) (text : List ℕ)
    → is_char_boundary text index ≡ true
    → length text + len_utf8 ch < usize_mod
    → Grows (grow index ch) text (splice index index (encode_utf8 ch) text) tt
unfolding grow cap op
grow-Grows index ch text at_char h = record {
  needs = λ S g s w e.
      rw (e, at_char, uadd-eq _ _ h)
        (ap some (omega (arith, sized, inside, length-encode_utf8 ch)));
  leaves = λ S g s w e r. rw e at (
      insert_bytes-Leaves ⦃g = g⦄ s index w (omega (arith, inside, ap length e)) (encode_utf8 ch)
        (Room-le (omega (arith, sized, inside, length-encode_utf8 ch, ap length e)) r));
}
  where
    inside : index ≤ length text
    inside = boundary_le text index at_char

    sized :
        length (splice index index (encode_utf8 ch) text)
        ≡ index + length (encode_utf8 ch) + (length text - index)
    sized = length-splice index index (encode_utf8 ch) text (omega arith) inside

pub grow-Refuses :
    (index : ℕ) (ch : ℕ) (text : List ℕ)
    → is_char_boundary text index ≡ false
    → Refuses (grow index ch) text
unfolding grow cap
grow-Refuses index ch text off S g s e = rw (e, off)
