-- ===== src/Smart/Convert/Laws.antt =====
-- Conversions keep the text, choose the form by its length, and leave no block behind.
use smartstring.Prelude.{
  ℕ, ◌≤◌, ◌<◌, ◌≡◌, ◌∙◌, refl, sym, ap, true, false, List, arith, length, ltb, leb, max, Bool-cases,
  inl, inr, isize_max, if◌then◌else◌,
}
use smartstring.Heap.{Heap, Allocator}
use smartstring.Boxed.Into as Into
use smartstring.Boxed.Strings.{IsString, copy_string-IsString}
use smartstring.Heap.Succeeds
use smartstring.Heap.Succeeds.{Succeeds, returns}
use smartstring.Inline.{max_inline}
use smartstring.Inline.Wf as InlineWf
use smartstring.Boxed.{BoxedString, StdString, to_string, minimal_capacity}
use smartstring.Boxed.Wf as BoxedWf
use smartstring.Boxed.Texts.{from_string-Stored, clone-Stored}
use smartstring.Smart.{from_boxed, SmartString, cast, is_inline}
use smartstring.Smart.Cast.{
  cast-from_boxed, cast-from_inline, is_inline-from_boxed, is_inline-from_inline,
}
use smartstring.Smart.Rep.{Inlined-length, Stored-is_inline, Rep, inlined, stored}
use smartstring.Smart.Convert.{
  is_empty, deref, len, capacity, from_str, from_string, into_string, into_cast, clone, clone_cast,
}

module _ {rest : Heap} {text : List ℕ} {s : SmartString} {h : Heap} where
  -- Reading a string gives the text that it holds, in either form.
  pub deref-Rep : Rep rest text s h → deref s ≡ text
  unfolding deref
  deref-Rep (inlined i e w same) = rw (ap cast e ∙ cast-from_inline i w.wf) w.text_eq
  deref-Rep (stored b e st) = rw (ap cast e ∙ cast-from_boxed b st.wf) st.text_eq

  pub len-Rep : Rep rest text s h → len s ≡ length text
  unfolding len
  len-Rep (inlined i e w same) =
      rw (ap cast e ∙ cast-from_inline i w.wf)
        (sym (InlineWf.length-deref i w.wf) ∙ ap length w.text_eq)
  len-Rep (stored b e st) = rw (ap cast e ∙ cast-from_boxed b st.wf) (ap length st.text_eq)

  pub is_empty-Rep : Rep rest text s h → 0 < length text → is_empty s ≡ false
  unfolding is_empty
  is_empty-Rep r some_text = let size = len-Rep r in ground (arith, size)

  -- The capacity of a string of either form is at least the length of its text.
  capacity-Rep : Rep rest text s h → length text ≤ capacity s
  unfolding capacity
  capacity-Rep (inlined i e w same) =
      rw (ap cast e ∙ cast-from_inline i w.wf)
        (omega (arith, ap length w.text_eq, InlineWf.length-deref i w.wf, w.wf.fits))
  capacity-Rep (stored b e st) =
      rw (ap cast e ∙ cast-from_boxed b st.wf)
        (omega (arith, ap length st.text_eq, BoxedWf.length-deref b st.wf, st.wf.fits))

pub capacity-inline :
    {rest : Heap} {text : List ℕ} {s : SmartString} {h : Heap}
    → Rep rest text s h
    → is_inline s ≡ true
    → capacity s ≡ max_inline
unfolding capacity
capacity-inline (inlined i e w same) here = rw (ap cast e ∙ cast-from_inline i w.wf) refl
capacity-inline (stored b e st) here = cc (Stored-is_inline b e st)

pub capacity-from_boxed : (b : BoxedString) → BoxedWf.IsWf b → capacity (from_boxed b) ≡ b.cap
unfolding capacity
capacity-from_boxed b w = rw (cast-from_boxed b w) refl

module _ (a : Allocator) (rest : Heap) where
  -- A new string with the text, inline exactly when the text fits.
  abbrev pub Made : List ℕ → SmartString → Heap → Type 0
  Made text s h = Rep rest text s h × (is_inline s ≡ leb (length text) max_inline)

  -- From a String whose text is within its capacity, and the capacity below 2^63 - 1, unless the
  -- allocator answers null: the new string holds its text, and is inline exactly when the text
  -- fits.
  pub from_string-Made :
      (string : StdString)
      → length string.text ≤ string.capacity
      → string.capacity < isize_max
      → Succeeds a (Made string.text) (from_string a string rest)
  unfolding from_string
  from_string-Made string fits lim = elim (Bool-cases (ltb max_inline (length string.text))) [
    | inl more ↦
        let big : leb (length string.text) max_inline ≡ false = ground arith in
        rw more (
          Succeeds.bind (from_string-Stored a rest string fits lim (ground arith))
            λ b h (st, room). returns (stored b refl st, is_inline-from_boxed b st.wf ∙ sym big))
    | inr small ↦
        let leb_small : leb (length string.text) max_inline ≡ true = ground arith in
        let (i, copied, w) = InlineWf.from_str-Inlined string.text (ground arith) in
        rw (small, copied)
          (returns (inlined i refl w refl, is_inline-from_inline i w.wf ∙ sym leb_small))
  ]

  pub from_str-Made :
      (text : List ℕ) → length text < isize_max → Succeeds a (Made text) (from_str a text rest)
  unfolding from_str from_string
  from_str-Made text lim = from_string-Made (to_string text) (omega arith) lim

  -- In the build without the Allocator trait, turning a string of either form into a String,
  -- unless the allocator answers null: the String has the text, its capacity is the text's length,
  -- and its block, if the text is not empty, is the only one beside the rest: the string's own has
  -- been given back.
  pub into_string-IsString :
      (text : List ℕ) (s : SmartString) (h : Heap)
      → Rep rest text s h
      → Succeeds a
          (λ t h'. IsString rest text t h' × (t.capacity ≡ length text))
          (into_string a s h)
  unfolding into_string into_cast
  into_string-IsString text s h (inlined i e w same) =
      rw (ap cast e ∙ cast-from_inline i w.wf, w.text_eq, same)
        (Succeeds.mono (copy_string-IsString a text rest (omega (arith, Inlined-length w)))
          λ t h' (held, room). (held, sym room))
  into_string-IsString text s h (stored b e st) =
      rw (ap cast e ∙ cast-from_boxed b st.wf) (Into.into_string-IsString a rest text b h st)

-- Unless the allocator answers null, the clone has the text and the form of the original, in a
-- block of its own beside all others if it is boxed, and its capacity is then the original's or
-- the minimal capacity, whichever is larger.
pub clone-Rep :
    (a : Allocator) (rest : Heap) (text : List ℕ) (s : SmartString) (h : Heap)
    → Rep rest text s h
    → Succeeds a
        (λ c h'.
          Rep h text c h'
          × (is_inline c ≡ is_inline s)
          × (capacity c ≡ (if is_inline s then max_inline else max (capacity s) minimal_capacity)))
        (clone a s h)
unfolding clone clone_cast capacity
clone-Rep a rest text s h (inlined i e w same) =
    rw (e, cast-from_inline i w.wf, is_inline-from_inline i w.wf)
      (returns (inlined i refl w refl, is_inline-from_inline i w.wf, rw (cast-from_inline i w.wf)))
clone-Rep a rest text s h (stored b e st) =
    rw (e, cast-from_boxed b st.wf, is_inline-from_boxed b st.wf)
      (Succeeds.bind (clone-Stored a h b st.wf) λ c h' (made, room). returns (
        stored c refl
            (record { wf = made.wf; owned = made.owned; text_eq = made.text_eq ∙ st.text_eq }),
        is_inline-from_boxed c made.wf,
        rw (cast-from_boxed c made.wf) room,
      ))
