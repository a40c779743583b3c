-- ===== src/Smart/Write.antt =====
-- `DerefMut` and `IndexMut`: a `&mut str` is written through, which changes no length. What the
-- borrower does with the bytes is the argument `write`.
use smartstring.Utf8.Laws.{get_range-some, boundary_le}
use smartstring.Utf8.{is_char_boundary}
use smartstring.Prelude.{
  length-take_le, length-drop, take-append_eq, ℕ, ◌+◌, ◌-◌, ◌≤◌, ◌≡◌, ◌∙◌, refl, sym, ap, true,
  List, ◌++◌, Option, none, some, arith, length, take, drop, length-append,
}
use smartstring.Heap.{Heap}
use smartstring.Generic.{GenericString, len, Holds, Holds-write, Holds-text}
use smartstring.Smart.{
  StringCast, boxed, inline, cast, from_boxed, from_inline, SmartString, is_inline,
}
use smartstring.Smart.Index
use smartstring.Smart.Cast.{
  cast-from_boxed, cast-from_inline, is_inline-from_boxed, is_inline-from_inline,
}
use smartstring.Smart.Rep.{Rep, stored, inlined, Holds-Stored, Holds-Inlined}
use smartstring.Smart.Convert.{deref}
use smartstring.Ops.Splice.{splice}
use smartstring.Ops.InsertBytes.{length-splice}
use smartstring.Inline.Wf as InlineWf
use smartstring.Boxed.Wf as BoxedWf

abbrev pub Write : Type 0
Write = List ℕ → List ℕ

-- The bytes of the text, in the buffer of either struct.
written : {S : Type 0} ⦃g : GenericString S⦄ → Write → S → S
written ⦃g = g⦄ write s = g.with_slice s (write (g.deref s) ++ drop (len s) (g.capacity_slice s))

deref_mut_cast : Write → StringCast → SmartString
unfolding written
deref_mut_cast write (boxed b) = from_boxed (written ⦃g = BoxedWf.generic⦄ write b)
deref_mut_cast write (inline i) = from_inline (written ⦃g = InlineWf.generic⦄ write i)

-- `deref_mut`
pub deref_mut : Write → SmartString → SmartString
unfolding deref_mut_cast
deref_mut write s = deref_mut_cast write (cast s)

pub as_mut_str : Write → SmartString → SmartString
as_mut_str write s = deref_mut write s

-- `impl AsMut<str>` and `impl BorrowMut<str>`
pub as_mut : Write → SmartString → SmartString
as_mut write s = deref_mut write s

pub borrow_mut : Write → SmartString → SmartString
borrow_mut write s = deref_mut write s

pub part_mut : ℕ → ℕ → Option (List ℕ) → Write → SmartString → Option SmartString
part_mut start end none write s = none
part_mut start end (some part) write s = some (deref_mut (splice start end (write part)) s)

-- `impl IndexMut` for the six kinds of range; `none` is the panic.
module _ (write : Write) (s : SmartString) where
  pub index_mut_range : ℕ → ℕ → Option SmartString
  unfolding part_mut
  index_mut_range start end = part_mut start end (Index.index_range s start end) write s

  pub index_mut_to : ℕ → Option SmartString
  unfolding part_mut
  index_mut_to end = part_mut 0 end (Index.index_to s end) write s

  pub index_mut_from : ℕ → Option SmartString
  unfolding part_mut
  index_mut_from start = part_mut start (length (deref s)) (Index.index_from s start) write s

  pub index_mut_full : Option SmartString
  index_mut_full = some (deref_mut write s)

  pub index_mut_inclusive : ℕ → ℕ → Option SmartString
  unfolding part_mut
  index_mut_inclusive start end =
      part_mut start (end + 1) (Index.index_inclusive s start end) write s

  pub index_mut_to_inclusive : ℕ → Option SmartString
  unfolding part_mut
  index_mut_to_inclusive end = part_mut 0 (end + 1) (Index.index_to_inclusive s end) write s

module _ {S : Type 0} ⦃g : GenericString S⦄ (write : Write) (s : S) (w : g.IsWf s)
    (same : length (write (g.deref s)) ≡ length (g.deref s)) where
  written-Holds : Holds s (write (g.deref s)) (written write s)
  unfolding written
  written-Holds = Holds-text (take-append_eq (len s) (write (g.deref s)) _ (sym same)) (
      Holds-write s w _ (
        omega (
          arith,
          same,
          g.wf_length s w,
          length-append (write (g.deref s)) (drop (len s) (g.capacity_slice s)),
          length-drop (len s) (g.capacity_slice s),
        )))

module _ {rest : Heap} {text : List ℕ} {s : SmartString} {h : Heap} (write : Write) where
  -- The text is what was written, and the form and the block stay.
  deref_mut-Rep :
      Rep rest text s h
      → length (write text) ≡ length text
      → Rep rest (write text) (deref_mut write s) h × (is_inline (deref_mut write s) ≡ is_inline s)
  unfolding deref_mut deref_mut_cast
  deref_mut-Rep (stored b e st) same =
      let held = Holds-text ⦃g = BoxedWf.generic⦄ (ap write st.text_eq) (
        written-Holds ⦃g = BoxedWf.generic⦄ write b st.wf
          (ap (λ t. length (write t)) st.text_eq ∙ same ∙ sym (ap length st.text_eq))) in
      rw (e, cast-from_boxed b st.wf)
        (
          stored (written ⦃g = BoxedWf.generic⦄ write b) refl (Holds-Stored st held),
          is_inline-from_boxed _ held.wf ∙ sym (is_inline-from_boxed b st.wf),
        )
  deref_mut-Rep (inlined i e w same_heap) same =
      let held = Holds-text ⦃g = InlineWf.generic⦄ (ap write w.text_eq) (
        written-Holds ⦃g = InlineWf.generic⦄ write i w.wf
          (ap (λ t. length (write t)) w.text_eq ∙ same ∙ sym (ap length w.text_eq))) in
      rw (e, cast-from_inline i w.wf)
        (
          inlined (written ⦃g = InlineWf.generic⦄ write i) refl (Holds-Inlined held) same_heap,
          is_inline-from_inline _ held.wf ∙ sym (is_inline-from_inline i w.wf),
        )

-- Writing into a range that is in the text changes that range alone.
part_mut-Rep :
    {rest : Heap} {text : List ℕ} {s : SmartString} {h : Heap} (write : Write) (start end : ℕ)
    (part : List ℕ)
    → Rep rest text s h
    → start ≤ end
    → end ≤ length text
    → length (write part) ≡ end - start
    → (s' : SmartString) × (part_mut start end (some part) write s ≡ some s')
      × Rep rest (splice start end (write part) text) s' h
      × (is_inline s' ≡ is_inline s)
unfolding part_mut
part_mut-Rep {rest} {text} {s} {h} write start end part r ordered inside sized =
    let change = splice start end (write part) in
    let (r', place) = deref_mut-Rep change r (
      omega (
        arith,
        ordered,
        inside,
        sized,
        length-splice start end (write part) text ordered inside,
      )) in
    (deref_mut change s, refl, r', place)

-- Writing through a mutable range index, where the range is in order, both its ends are on
-- character boundaries, and the write keeps the length of whatever it is given: the index does not
-- panic, the string of either form holds its text with the range written, and it keeps its form
-- and its block.
pub index_mut_range-Rep :
    {rest : Heap} {text : List ℕ} {s : SmartString} {h : Heap} (write : Write) (start end : ℕ)
    → Rep rest text s h
    → start ≤ end
    → is_char_boundary text start ≡ true
    → is_char_boundary text end ≡ true
    → ((part : List ℕ) → length (write part) ≡ length part)
    → (s' : SmartString) × (index_mut_range write s start end ≡ some s')
      × Rep rest (splice start end (write (take (end - start) (drop start text))) text) s' h
      × (is_inline s' ≡ is_inline s)
unfolding index_mut_range
index_mut_range-Rep {text = text} write start end r ordered b c keeps =
    let part = take (end - start) (drop start text) in
    let inside = boundary_le text end c in
    let part_size : length part ≡ end - start =
      length-take_le (end - start) (drop start text)
        (omega (arith, inside, length-drop start text)) in
    rw (Index.index_range-Rep r start end ∙ get_range-some text start end ordered b c)
      (part_mut-Rep write start end part r ordered inside (keeps part ∙ part_size))
