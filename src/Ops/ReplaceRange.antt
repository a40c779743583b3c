-- ===== src/Ops/ReplaceRange.antt =====
-- `ReplaceRange` of ops.rs.
use smartstring.Prelude.{
  ℕ, ◌+◌, ◌-◌, ◌≤◌, ◌<◌, ◌≡◌, ◌∙◌, refl, sym, ap, Bool, true, false, ◌&&◌, List, [], ◌∷◌, Option,
  none, some, arith, ltb, leb, if◌then◌else◌, length, uadd, uadd-eq, usub, usize_mod,
}
use smartstring.Run.{M, pure, gets, unwrap, ◌>>=◌, ◌>>◌}
use smartstring.Generic.{GenericString, len, edit, resize, Leaves, store_once, store_twice}
use smartstring.Slice.{
  copy_within, copy_from_slice, copy_from_slice-written, copy_within-moved, moved, length-written,
  length-moved, range,
}
use smartstring.Utf8.{is_char_boundary}
use smartstring.Ops.{GrowOp}
use smartstring.Ops.Splice.{splice, Room, Room-le, written-moved, take-moved_lem, Grows, Refuses}
use smartstring.Ops.{RangeBounds, bounds_for}
use smartstring.Ops.InsertBytes.{length-splice}

-- The four assertions of `cap`.
unfoldable pub in_text : List ℕ → ℕ → ℕ → Bool
in_text text start end =
    leb start end
    && (leb end (length text) && (is_char_boundary text start && is_char_boundary text end))

-- `bounds` is what `bounds_for` answers.
cap_of : Option (ℕ × ℕ) → List ℕ → List ℕ → Option ℕ
cap_of none replace_with text = none
cap_of (some (start, end)) replace_with text =
    if in_text text start end
    then some (uadd (uadd start (length replace_with)) (usub (length text) end))
    else none

module _ {S : Type 0} ⦃g : GenericString S⦄ where
  pub cap : RangeBounds → List ℕ → S → Option ℕ
  unfolding cap_of
  cap range replace_with s = cap_of (bounds_for range (len s)) replace_with (g.deref s)

  pub op : RangeBounds → List ℕ → M S (Unit {0})
  op range replace_with = do
    n ← gets len
    (start, end) ← unwrap (bounds_for range n)
    let replace_len = length replace_with
    let new_end = uadd start replace_len
    let end_size = usub n end
    edit (copy_within end n new_end)
    if ltb 0 replace_len then edit (copy_from_slice start new_end replace_with) else pure tt
    resize (uadd (uadd start replace_len) end_size)

pub grow : RangeBounds → List ℕ → GrowOp (Unit {0})
grow range replace_with = record {
  cap = λ S g s. cap ⦃g = g⦄ range replace_with s;
  op = λ S g. op ⦃g = g⦄ range replace_with;
}

module _ {S : Type 0} ⦃g : GenericString S⦄ (s : S) (range : RangeBounds) (start end : ℕ)
    (w : g.IsWf s) (found : bounds_for range (len s) ≡ some (start, end)) (ordered : start ≤ end)
    (inside : end ≤ len s) where
  end_eq : Room s (len s) → usub (len s) end ≡ len s - end
  end_eq r = omega (arith, r.enough, r.addressable)

  -- The bytes behind the range are moved to where the new text ends, and the text is written.
  with_text :
      (b : ℕ) (src : List ℕ)
      → Room s (len s)
      → Room s (start + length (b ∷ src) + (len s - end))
      → Leaves s (splice start end (b ∷ src) (g.deref s)) tt (op range (b ∷ src) s)
  unfolding op
  with_text b src q r =
      let n = len s in
      let k = length (b ∷ src) in
      let buf = g.capacity_slice s in
      let gap = length-moved end n (start + k) buf inside q.enough r.enough in
      let fits : start + k ≤ length (moved end n (start + k) buf) = omega (arith, gap, r.enough) in
      let full =
        length-written start (start + k) (b ∷ src) (moved end n (start + k) buf) refl fits in
      let nonempty : ltb 0 k ≡ true = ground arith in
      rw
        (
          found,
          uadd-eq start k (omega (arith, r.enough, r.addressable)),
          end_eq q,
          uadd-eq (start + k) (n - end) (omega (arith, r.enough, r.addressable)),
          nonempty,
        )
        (store_twice s w (copy_within end n (start + k))
          (copy_from_slice start (start + k) (b ∷ src)) _ _ (start + k + (n - end))
          (copy_within-moved end n (start + k) buf inside q.enough r.enough)
          (copy_from_slice-written start (start + k) (b ∷ src) _ refl fits) gap full
          (omega (arith, full, gap, r.enough))
          (written-moved n start end buf ordered inside q.enough (start + k) (b ∷ src) refl r.enough
            ∙ ap (splice start end (b ∷ src)) (sym (g.wf_deref s w))))

  without_text : Room s (len s) → Leaves s (splice start end [] (g.deref s)) tt (op range [] s)
  unfolding op
  without_text q =
      let n = len s in
      let buf = g.capacity_slice s in
      let shorter : start + (n - end) ≤ length buf = omega (arith, q.enough) in
      let gap = length-moved end n start buf inside q.enough shorter in
      let same : uadd start (length {A = ℕ} []) ≡ start = omega (arith, q.enough, q.addressable) in
      rw (found, same, end_eq q, uadd-eq start (n - end) (omega (arith, q.enough, q.addressable)))
        (store_once s w (copy_within end n start) _ (start + (n - end))
          (copy_within-moved end n start buf inside q.enough shorter) gap
          (omega (arith, gap, q.enough))
          (take-moved_lem n start end buf ordered inside q.enough
            ∙ ap (splice start end []) (sym (g.wf_deref s w))))

  op-Leaves :
      (src : List ℕ)
      → Room s (len s)
      → Room s (start + length src + (len s - end))
      → Leaves s (splice start end src (g.deref s)) tt (op range src s)
  op-Leaves [] q r = without_text q
  op-Leaves (b ∷ src) q r = with_text b src q r

-- A range that the text has, with both ends on character boundaries.
pub record InText (range : RangeBounds) (text : List ℕ) (start end : ℕ) : Type 0 where
  pub found : bounds_for range (length text) ≡ some (start, end)
  pub checked : in_text text start end ≡ true

module _ (text : List ℕ) (start end : ℕ) (h : in_text text start end ≡ true) where
  pub in_text_bounds : (start ≤ end) × (end ≤ length text)
  unfolding in_text
  in_text_bounds = ground arith

  pub in_text_boundaries : (is_char_boundary text start ≡ true) × (is_char_boundary text end ≡ true)
  unfolding in_text
  in_text_boundaries = ground arith

-- A range that is in the text, and one that is beyond it.
module _ (text : List ℕ) (start end : ℕ) where
  pub in_text_inside :
      start ≤ end
      → end ≤ length text
      → is_char_boundary text start ≡ true
      → is_char_boundary text end ≡ true
      → in_text text start end ≡ true
  unfolding in_text
  in_text_inside h k b c = ground arith

  -- One of the four assertions fails.
  pub in_text_lem :
      leb start end ≡ true
      → leb end (length text) ≡ true
      → is_char_boundary text start ≡ true
      → is_char_boundary text end ≡ true
      → in_text text start end ≡ false
      → ⊥
  unfolding in_text
  in_text_lem t1 t2 t3 t4 off = cc

  in_text_beyond : length text < end → in_text text start end ≡ false
  unfolding in_text
  in_text_beyond h = ground arith

pub grow-Grows :
    (range : RangeBounds) (src text : List ℕ) (start end : ℕ)
    → InText range text start end
    → length text + length src < usize_mod
    → Grows (grow range src) text (splice start end src text) tt
unfolding grow cap
grow-Grows range src text start end i h = record {
  needs = λ S g s w e. rw (e, i.found, i.checked, start_eq, end_eq', sum_eq) (ap some (sym sized));
  leaves = λ S g s w e r.
      let q : Room ⦃g = g⦄ s (len ⦃g = g⦄ s) = record {
        enough = g.wf_length s w;
        addressable = r.addressable;
      } in
      rw e at (
        op-Leaves ⦃g = g⦄ s range start end w (rw e i.found) bounds.0
          (omega (arith, bounds.1, ap length e)) src q
          (Room-le ⦃g = g⦄ (omega (arith, sized, ap length e)) r));
}
  where
    bounds : (start ≤ end) × (end ≤ length text)
    bounds = in_text_bounds text start end i.checked

    sized : length (splice start end src text) ≡ start + length src + (length text - end)
    sized = length-splice start end src text bounds.0 bounds.1

    start_eq : uadd start (length src) ≡ start + length src
    start_eq = omega (arith, bounds.0, bounds.1)

    end_eq' : usub (length text) end ≡ length text - end
    end_eq' = omega (arith, bounds.0, bounds.1)

    sum_eq :
        uadd (start + length src) (length text - end) ≡ start + length src + (length text - end)
    sum_eq = omega (arith, bounds.0, bounds.1)

-- The range overflows.
pub grow-Refuses_overflow :
    (range : RangeBounds) (src text : List ℕ)
    → bounds_for range (length text) ≡ none
    → Refuses (grow range src) text
unfolding grow cap
grow-Refuses_overflow range src text over S g s e = rw (e, over)

-- The range is not in the text, or an end of it is inside a character.
pub grow-Refuses :
    (range : RangeBounds) (src text : List ℕ) (start end : ℕ)
    → bounds_for range (length text) ≡ some (start, end)
    → in_text text start end ≡ false
    → Refuses (grow range src) text
unfolding grow cap
grow-Refuses range src text start end found off S g s e = rw (e, found, off)
