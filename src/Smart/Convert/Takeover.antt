-- ===== src/Smart/Convert/Takeover.antt =====
-- `From<String>` and `From<SmartString> for String` in the build with the `Allocator` trait.
use smartstring.Boxed.Strings.{
  RawString, text_of, drop_string, copy_string, IsString, drop_string_lem, copy_string-IsString,
}
use smartstring.Prelude.{
  length-take_le, ℕ, ◌≡◌, ◌∙◌, refl, sym, ap, inl, inr, List, arith, ltb, if◌then◌else◌, Bool-cases,
  length,
}
use smartstring.Run.{M, pure, unwrap, ◌>>=◌, ◌>>◌, and_then}
use smartstring.Heap.{Heap}
use smartstring.Heap.Succeeds
use smartstring.Heap.Succeeds.{Succeeds, returns, gives_up}
use smartstring.Boxed.Takeover.{Global, from_raw, into_raw}
use smartstring.Boxed.Takeover.Takes.{from_raw-Stored}
use smartstring.Boxed.Takeover.Gives.{into_raw-IsString}
use smartstring.Smart.{SmartString, StringCast, boxed, inline, cast, from_boxed, from_inline}
use smartstring.Smart.Cast.{
  cast-from_boxed, cast-from_inline, is_inline-from_boxed, is_inline-from_inline,
}
use smartstring.Smart.Rep.{Rep, stored, inlined, Inlined-length}
use smartstring.Smart.Convert.Laws.{Made}
use smartstring.Inline.{max_inline}
use smartstring.Inline as Inline
use smartstring.Inline.Wf as InlineWf

module _ (g : Global) where
  -- A short `String` is copied, and dropped.
  pub from_raw_string : RawString → M Heap SmartString
  from_raw_string s =
      if ltb max_inline s.len
      then (do b ← from_raw g s; pure (from_boxed b))
      else (do i ← unwrap (Inline.from_str (text_of s)); drop_string g.base s; pure (from_inline i))

  into_raw_cast : StringCast → M Heap RawString
  into_raw_cast (boxed b) = into_raw g b
  into_raw_cast (inline i) = copy_string g.base (Inline.deref i)

  pub into_raw_string : SmartString → M Heap RawString
  unfolding into_raw_cast
  into_raw_string s = into_raw_cast (cast s)

  -- From a `String` that holds the text, unless the allocator answers null: the string holds it too,
  -- and is inline exactly when the text fits. No other block is left.
  from_raw_string-Made :
      (rest : Heap) (text : List ℕ) (s : RawString) (h : Heap)
      → IsString rest text s h
      → Succeeds g.base (Made g.base rest text) (from_raw_string s h)
  unfolding from_raw_string
  from_raw_string-Made rest text s h w =
      let sized : length text ≡ s.len =
        ap length (sym w.text_eq) ∙ length-take_le s.len s.bytes (omega (arith, w.fits, w.full)) in
      elim (Bool-cases (ltb max_inline s.len)) [
        | inl more ↦ rw more (
            Succeeds.bind (from_raw-Stored g rest text s h w) λ b h' st.
              returns (stored b refl st, is_inline-from_boxed b st.wf ∙ ground (arith, sized)))
        | inr fits ↦
            let (i, found, held) = InlineWf.from_str-Inlined text (ground (arith, sized)) in
            rw (fits, w.text_eq)
              (rw (found, drop_string_lem g.base rest s h w.owned)
                (returns (
                  inlined i refl held refl,
                  is_inline-from_inline i held.wf ∙ ground (arith, sized),
                )))
      ]

  -- Turning a string of either form into a `String` keeps its text.
  into_raw_string-IsString :
      (rest : Heap) (text : List ℕ) (s : SmartString) (h : Heap)
      → Rep rest text s h
      → Succeeds g.base (λ t h'. IsString rest text t h') (into_raw_string s h)
  unfolding into_raw_string into_raw_cast
  into_raw_string-IsString rest text s h (stored b e st) =
      rw (e, cast-from_boxed b st.wf) (into_raw-IsString g rest text b h st)
  into_raw_string-IsString rest text s h (inlined i e w same) =
      rw (e, cast-from_inline i w.wf, w.text_eq, same)
        (Succeeds.mono (copy_string-IsString g.base text rest (omega (arith, Inlined-length w)))
          λ t h' (held, _). held)

  -- In the build with the Allocator trait, a string of either form is turned into a String and
  -- back: unless the allocator answers null, the result holds the same text, is inline exactly
  -- when it fits, and owns the only block beside the rest, whether each growth of a block
  -- succeeded, moved it, or failed and the text was copied.
  pub from_raw_string-into_raw_string :
      (rest : Heap) (text : List ℕ) (s : SmartString) (h : Heap)
      → Rep rest text s h
      → Succeeds g.base (Made g.base rest text) (and_then (into_raw_string s h) from_raw_string)
  from_raw_string-into_raw_string rest text s h r =
      Succeeds.bind (into_raw_string-IsString rest text s h r)
        λ t h' w. from_raw_string-Made rest text t h' w
