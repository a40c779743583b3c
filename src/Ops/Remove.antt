-- ===== src/Ops/Remove.antt =====
-- `Remove` of ops.rs.
use smartstring.Prelude.{
  ℕ, ◌+◌, ◌-◌, ◌≤◌, ◌≡◌, ◌⊎◌, ◌∙◌, refl, sym, ap, true, false, List, [], ◌++◌, none, some, arith,
  ltb, if◌then◌else◌, length, take, uadd, usub, Bool-cases, inl, inr, append-nil, drop_all,
}
use smartstring.Run.{M, pure, gets, unwrap, ◌>>=◌, ◌>>◌, on_first, on_first-done, on_first-panicked}
use smartstring.Generic.{
  GenericString, len, edit, edit-some, resize, Holds-text, Holds-store, Holds-cut, Leaves,
}
use smartstring.Slice.{copy_within, copy_within-moved, moved, length-moved}
use smartstring.Utf8.{len_utf8, first_char, get_from}
use smartstring.Ops.{ShrinkOp}
use smartstring.Ops.Splice.{splice, Room, Room-le, take-moved_lem, Shrinks, Panics}
use smartstring.Utf8.Laws.{first_char-nil}

module _ {S : Type 0} ⦃g : GenericString S⦄ where
  pub op : ℕ → M S ℕ
  op index = do
    text ← gets g.deref
    tail ← unwrap (get_from text index)
    ch ← unwrap (first_char tail)
    let next = uadd index (len_utf8 ch)
    n ← gets len
    let tail_len = usub n next
    if ltb 0 tail_len then edit (copy_within next n index) else pure tt
    resize (usub n (usub next index))
    pure ch

pub shrink : ℕ → ShrinkOp ℕ
shrink index = record { op = λ S g. on_first (op ⦃g = g⦄ index) }

module _ {S : Type 0} ⦃g : GenericString S⦄ (s : S) (index ch : ℕ) (tail : List ℕ) (w : g.IsWf s)
    (found : get_from (g.deref s) index ≡ some tail) (first : first_char tail ≡ some ch)
    (inside : index + len_utf8 ch ≤ len s) (r : Room s (len s)) where
  next_eq : uadd index (len_utf8 ch) ≡ index + len_utf8 ch
  next_eq = omega (arith, r.enough, r.addressable)

  tail_eq : usub (len s) (index + len_utf8 ch) ≡ len s - (index + len_utf8 ch)
  tail_eq = omega (arith, r.enough, r.addressable)

  size_eq :
      usub (len s) (usub (index + len_utf8 ch) index) ≡ index + (len s - (index + len_utf8 ch))
  size_eq = omega (arith, r.enough, r.addressable)

  -- The bytes behind the character are moved down over it.
  with_tail :
      ltb 0 (len s - (index + len_utf8 ch)) ≡ true
      → Leaves s (splice index (index + len_utf8 ch) [] (g.deref s)) ch (op index s)
  unfolding op
  with_tail more =
      let next = index + len_utf8 ch in
      let n = len s in
      let buf = g.capacity_slice s in
      let shorter : index + (n - next) ≤ length buf = omega (arith, r.enough) in
      let full = length-moved next n index buf inside r.enough shorter in
      (
        g.set_size (g.with_slice s (moved next n index buf)) (index + (n - next)),
        rw (found, first, next_eq, tail_eq, more, size_eq)
            (rw
              (edit-some (copy_within next n index) s
                (copy_within-moved next n index buf inside r.enough shorter))
              refl),
        Holds-text
            (take-moved_lem n index next buf (omega arith) inside r.enough
              ∙ ap (splice index next []) (sym (g.wf_deref s w)))
            (Holds-store s w (moved next n index buf) (index + (n - next)) full
              (omega (arith, full))),
      )

  without_tail :
      ltb 0 (len s - (index + len_utf8 ch)) ≡ false
      → Leaves s (splice index (index + len_utf8 ch) [] (g.deref s)) ch (op index s)
  unfolding op
  without_tail last =
      let next = index + len_utf8 ch in
      let n = len s in
      let at_end : n ≡ next = ground (arith, inside) in
      let size : index + (n - next) ≡ index = omega arith in
      (
        g.set_size s index,
        rw (found, first, next_eq, tail_eq, last, size_eq, size),
        Holds-text
            (sym (
              ap (λ t. take index (g.deref s) ++ t) (drop_all next (g.deref s) (omega arith))
              ∙ append-nil (take index (g.deref s))))
            (Holds-cut s w index (omega arith)),
      )

  pub op-Leaves : Leaves s (splice index (index + len_utf8 ch) [] (g.deref s)) ch (op index s)
  op-Leaves = elim (Bool-cases (ltb 0 (len s - (index + len_utf8 ch)))) [
    | inl more ↦ with_tail more
    | inr last ↦ without_tail last
  ]

-- The bytes of the character at `index` are cut out.
pub shrink-Shrinks :
    (index ch : ℕ) (text tail : List ℕ)
    → get_from text index ≡ some tail
    → first_char tail ≡ some ch
    → index + len_utf8 ch ≤ length text
    → Shrinks (shrink index) text (splice index (index + len_utf8 ch) [] text) ch
unfolding shrink
shrink-Shrinks index ch text tail found first inside S g s h w e r =
    let (s', run, held) =
      op-Leaves ⦃g = g⦄ s index ch tail w (rw e found) first (omega (arith, ap length e))
        (Room-le ⦃g = g⦄ (omega (arith, ap length e)) r) in
    (s', on_first-done (op ⦃g = g⦄ index) s h run, rw e at held)

-- Off a character boundary, and at the end, there is nothing to remove.
pub shrink-Panics :
    (index : ℕ) (text : List ℕ)
    → (get_from text index ≡ none) ⊎ (get_from text index ≡ some [])
    → Panics (shrink index) text
unfolding shrink op
shrink-Panics index text (inl off) S g s h e =
    on_first-panicked (op ⦃g = g⦄ index) s h (rw (e, off))
shrink-Panics index text (inr end) S g s h e =
    on_first-panicked (op ⦃g = g⦄ index) s h (rw (e, end, first_char-nil))
