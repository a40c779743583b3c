-- ===== src/Ops/PushStr.antt =====
-- `PushStr` of ops.rs.
use smartstring.Prelude.{
  ℕ, ◌+◌, ◌<◌, ◌≡◌, ◌∙◌, refl, sym, ap, List, ◌++◌, Option, some, arith, length, take, drop, uadd,
  uadd-eq, usize_mod, length-append, length-take_le, take-append_eq, take-append_ge,
}
use smartstring.Run.{M, gets, ◌>>=◌, ◌>>◌}
use smartstring.Generic.{Leaves, store_once, GenericString, len, edit, resize}
use smartstring.Slice.{copy_from_slice, copy_from_slice-written, written, length-written}
use smartstring.Ops.{GrowOp}
use smartstring.Ops.Splice.{Room, Room-le, Grows}

module _ {S : Type 0} ⦃g : GenericString S⦄ where
  pub cap : List ℕ → S → Option ℕ
  cap string s = some (uadd (len s) (length string))

  unfoldable pub op : List ℕ → M S (Unit {0})
  op string = do
    n ← gets len
    let new_len = uadd n (length string)
    edit (copy_from_slice n new_len string)
    resize new_len

  text_lem :
      (s : S) (string : List ℕ)
      → g.IsWf s
      → Room s (len s + length string)
      → take
          (len s + length string)
          (written (len s) (len s + length string) string (g.capacity_slice s))
        ≡ g.deref s ++ string
  text_lem s string w r =
      let n = len s in
      let e : take n (g.capacity_slice s) ≡ g.deref s = sym (g.wf_deref s w) in
      take-append_ge (n + length string) (length string) (take n (g.capacity_slice s)) _
        (omega (arith, length-take_le n (g.capacity_slice s) (g.wf_length s w)))
      ∙ ap
          (λ t. t ++ take (length string) (string ++ drop (n + length string) (g.capacity_slice s)))
          e
      ∙ ap (λ t. g.deref s ++ t) (take-append_eq (length string) string _ refl)

  pub op-Leaves :
      (s : S) (string : List ℕ)
      → g.IsWf s
      → Room s (len s + length string)
      → Leaves s (g.deref s ++ string) tt (op string s)
  unfolding op
  op-Leaves s string w r =
      let n = len s in
      let buf = g.capacity_slice s in
      let full = length-written n (n + length string) string buf refl r.enough in
      rw (uadd-eq n (length string) (omega (arith, r.enough, r.addressable))) (
        store_once s w (copy_from_slice n (n + length string) string) _ (n + length string)
          (copy_from_slice-written n (n + length string) string buf refl r.enough) full
          (omega (arith, full, r.enough)) (text_lem s string w r))

pub grow : List ℕ → GrowOp (Unit {0})
grow string = record { cap = λ S g s. cap ⦃g = g⦄ string s; op = λ S g. op ⦃g = g⦄ string }

pub grow-Grows :
    (string text : List ℕ)
    → length text + length string < usize_mod
    → Grows (grow string) text (text ++ string) tt
unfolding grow cap
grow-Grows string text h = record {
  needs = λ S g s w e. rw (e, uadd-eq _ _ h) (ap some (sym (length-append text string)));
  leaves = λ S g s w e r. rw e at (
      op-Leaves ⦃g = g⦄ s string w
        (Room-le (omega (arith, length-append text string, ap length e)) r));
}
