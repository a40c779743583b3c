-- ===== src/Ops/Push.antt =====
-- `Push` of ops.rs.
use smartstring.Prelude.{
  ℕ, ◌+◌, ◌<◌, ap, List, ◌++◌, Option, some, arith, length, uadd, uadd-eq, usize_mod, length-append,
}
use smartstring.Run.{M, gets, ◌>>=◌, ◌>>◌}
use smartstring.Generic.{GenericString, len, edit, resize, Leaves}
use smartstring.Slice.{copy_from_slice}
use smartstring.Utf8.{len_utf8, encode_utf8}
use smartstring.Ops.{GrowOp}
use smartstring.Ops.Splice.{Room-le, Grows}
use mathlib.Core.Path.{subst}
use smartstring.Ops.PushStr
use smartstring.Utf8.Laws.{length-encode_utf8}

module _ {S : Type 0} ⦃g : GenericString S⦄ where
  pub cap : ℕ → S → Option ℕ
  cap ch s = some (uadd (len s) (len_utf8 ch))

  -- `encode_utf8` writes at the front of the slice behind the text, and its result is as long as
  -- what it wrote.
  pub op : ℕ → M S (Unit {0})
  op ch = do
    n ← gets len
    let written_to = uadd n (length (encode_utf8 ch))
    edit (copy_from_slice n written_to (encode_utf8 ch))
    resize written_to

pub grow : ℕ → GrowOp (Unit {0})
grow ch = record { cap = λ S g s. cap ⦃g = g⦄ ch s; op = λ S g. op ⦃g = g⦄ ch }

pub grow-Grows :
    (ch : ℕ) (text : List ℕ)
    → length text + len_utf8 ch < usize_mod
    → Grows (grow ch) text (text ++ encode_utf8 ch) tt
unfolding grow cap op PushStr.op
grow-Grows ch text h = record {
  needs = λ S g s w e.
      rw (e, uadd-eq _ _ h)
        (ap some (omega (arith, length-append text (encode_utf8 ch), length-encode_utf8 ch)));
  leaves = λ S g s w e r.
      subst (λ t. Leaves ⦃g = g⦄ s (t ++ encode_utf8 ch) tt (PushStr.op ⦃g = g⦄ (encode_utf8 ch) s))
        e
        (PushStr.op-Leaves ⦃g = g⦄ s (encode_utf8 ch) w
          (Room-le ⦃g = g⦄ (omega (arith, length-append text (encode_utf8 ch), ap length e)) r));
}
