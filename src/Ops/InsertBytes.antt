-- ===== src/Ops/InsertBytes.antt =====
-- `insert_bytes` of ops.rs: the text before the index, the source, and the text behind it.
use smartstring.Prelude.{
  ℕ, ◌+◌, ◌-◌, ◌≤◌, ◌≡◌, ◌∙◌, refl, sym, ap, true, List, [], ◌∷◌, ◌++◌, arith, ltb, length, take,
  drop, uadd-eq, length-append, length-take_le, length-drop, take-append-drop,
}
use smartstring.Generic.{GenericString, len, Holds-self, Holds-text, Leaves, store_twice}
use smartstring.Slice.{
  copy_within, copy_from_slice, copy_from_slice-written, copy_within-moved, written, moved,
  length-written, length-moved,
}
use smartstring.Ops.{insert_bytes}
use smartstring.Ops.Splice.{splice, Room, written-moved}

module _ {S : Type 0} ⦃g : GenericString S⦄ (s : S) (index : ℕ) (w : g.IsWf s)
    (h : index ≤ len s) where
  some_bytes :
      (b : ℕ) (src : List ℕ)
      → Room s (len s + length (b ∷ src))
      → Leaves s (splice index index (b ∷ src) (g.deref s)) tt (insert_bytes index (b ∷ src) s)
  unfolding insert_bytes
  some_bytes b src r =
      let n = len s in
      let k = length (b ∷ src) in
      let buf = g.capacity_slice s in
      let from_end : index + k + (n - index) ≤ length buf = omega (arith, r.enough) in
      let gap = length-moved index n (index + k) buf h (g.wf_length s w) from_end in
      let fits : index + k ≤ length (moved index n (index + k) buf) =
        omega (arith, gap, r.enough) in
      let full =
        length-written index (index + k) (b ∷ src) (moved index n (index + k) buf) refl fits in
      let sized : n + k ≡ index + k + (n - index) = omega arith in
      let nonempty : ltb 0 k ≡ true = ground arith in
      rw
        (
          nonempty,
          uadd-eq index k (omega (arith, r.enough, r.addressable)),
          uadd-eq n k (omega (arith, r.enough, r.addressable)),
        )
        (store_twice s w (copy_within index n (index + k))
          (copy_from_slice index (index + k) (b ∷ src)) _ _ (n + k)
          (copy_within-moved index n (index + k) buf h (g.wf_length s w) from_end)
          (copy_from_slice-written index (index + k) (b ∷ src) _ refl fits) gap full
          (omega (arith, full, gap, r.enough))
          (ap (λ t. take t (written index (index + k) (b ∷ src) (moved index n (index + k) buf)))
              sized
            ∙ written-moved n index index buf (omega arith) h (g.wf_length s w) (index + k)
                (b ∷ src) refl from_end
            ∙ ap (splice index index (b ∷ src)) (sym (g.wf_deref s w))))

  -- Nothing is written for an empty source.
  no_bytes : Leaves s (splice index index [] (g.deref s)) tt (insert_bytes index [] s)
  unfolding insert_bytes
  no_bytes = (s, refl, Holds-text (sym (take-append-drop index (g.deref s))) (Holds-self s w))

  pub insert_bytes-Leaves :
      (src : List ℕ)
      → Room s (len s + length src)
      → Leaves s (splice index index src (g.deref s)) tt (insert_bytes index src s)
  insert_bytes-Leaves [] r = no_bytes
  insert_bytes-Leaves (b ∷ src) r = some_bytes b src r

pub length-splice :
    (start end : ℕ) (src text : List ℕ)
    → start ≤ end
    → end ≤ length text
    → length (splice start end src text) ≡ start + length src + (length text - end)
length-splice start end src text h k = omega (
  arith,
  length-append (take start text) (src ++ drop end text),
  length-append src (drop end text),
  length-take_le start text (omega arith),
  length-drop end text,
)
