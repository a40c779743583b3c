-- ===== src/Smart/Macros/Shrink.antt =====
-- `string_op_shrink!` on either kind of string, and `try_demote`: when the string moves back inline.
use smartstring.Prelude.{
  ℕ, ◌≡◌, ◌∙◌, refl, sym, ap, true, false, ◌&&◌, ◌||◌, List, arith, length, ltb, leb, Bool-cases,
  inl, inr,
}
use smartstring.Run.{done, panicked}
use smartstring.Heap.{Heap, Allocator}
use smartstring.Heap.Succeeds
use smartstring.Heap.Succeeds.{Returns, returns}
use smartstring.Inline.{InlineString, max_inline}
use smartstring.Inline.Wf as InlineWf
use smartstring.Boxed.{BoxedString}
use smartstring.Boxed.Wf as BoxedWf
use smartstring.Boxed.Blocks.{Stored, drop_lem}
use smartstring.Ops.{ShrinkOp}
use smartstring.Ops.Splice.{Shrinks, Panics}
use smartstring.Smart.{SmartString, Mode, dealloc, boxed, cast, from_boxed, is_inline}
use smartstring.Smart.Cast.{
  cast-from_boxed, cast-from_inline, is_inline-from_boxed, is_inline-from_inline,
}
use smartstring.Smart.Rep.{
  Rep, inlined, stored, Holds-Inlined, Holds-Stored, Inlined-length, Inlined-Room, Stored-Room,
  inline-fits,
}
use smartstring.Smart.Macros.{
  drop, drop_cast, demote_cast, really_try_demote, try_demote, shrink_cast, string_op_shrink,
}
use smartstring.Smart.Macros.Grow.{Post}

module _ (a : Allocator) (rest : Heap) (text : List ℕ) where
  demote-Stored :
      (b : BoxedString) (s : SmartString) (h : Heap)
      → s ≡ from_boxed b
      → Stored rest text b h
      → Returns
          (Post rest text (leb (length text) max_inline) (leb (length text) max_inline))
          (demote_cast a (boxed b) (s, h))
  unfolding demote_cast
  demote-Stored b s h e st = rw st.text_eq (elim (Bool-cases (ltb max_inline (length text))) [
    | inl more ↦
        let big : leb (length text) max_inline ≡ false = ground arith in
        rw (more, big)
          (returns (record {
            result = refl;
            rep = stored b e st;
            place = ap is_inline e ∙ is_inline-from_boxed b st.wf;
          }))
    | inr fits ↦
        let small : leb (length text) max_inline ≡ true = ground arith in
        let (i, copied, w) = InlineWf.from_str-Inlined text (ground arith) in
        rw (fits, small, copied, drop_lem a rest b h st.wf st.owned)
          (returns (record {
            result = refl;
            rep = inlined i refl w refl;
            place = is_inline-from_inline i w.wf;
          }))
  ])

  -- A string that does not fit inline stays as it is.
  pub really_try_demote_long :
      (s : SmartString) (h : Heap)
      → Rep rest text s h
      → ltb max_inline (length text) ≡ true
      → really_try_demote a (s, h) ≡ done false (s, h)
  unfolding really_try_demote demote_cast
  really_try_demote_long s h (stored b e st) more =
      rw (ap cast e ∙ cast-from_boxed b st.wf) (rw st.text_eq (rw more refl))
  really_try_demote_long s h (inlined i e w same) more =
      absurd (ground (arith, more, Inlined-length w))

  -- Whatever the form of the string and whatever the allocator answers, the call returns: the
  -- answer says whether the text fits inline, the text stays, and the string is then inline
  -- exactly when it fits, with its old block given back.
  pub really_try_demote-Post :
      (s : SmartString) (h : Heap)
      → Rep rest text s h
      → Returns
          (Post rest text (leb (length text) max_inline) (leb (length text) max_inline))
          (really_try_demote a (s, h))
  unfolding really_try_demote demote_cast
  really_try_demote-Post s h (stored b e st) =
      rw (ap cast e ∙ cast-from_boxed b st.wf) (demote-Stored b s h e st)
  really_try_demote-Post s h (inlined i e w same) =
      let small : leb (length text) max_inline ≡ true = ground (arith, Inlined-length w) in
      rw (ap cast e ∙ cast-from_inline i w.wf, small)
        (returns (record {
          result = refl;
          rep = inlined i e w same;
          place = ap is_inline e ∙ is_inline-from_inline i w.wf;
        }))

  absorbs :
      (s : SmartString) (h : Heap)
      → Rep rest text s h
      → leb (length text) max_inline ≡ (is_inline s || leb (length text) max_inline)
  absorbs s h r = elim (Bool-cases (is_inline s)) [
    | inl here ↦ rw here (inline-fits r here)
    | inr away ↦ rw away
  ]

  module _ (m : Mode) where
    -- `LazyCompact` leaves the string as it is.
    pub try_demote-Post :
        (s : SmartString) (h : Heap)
        → Rep rest text s h
        → Returns
            (λ y p.
              Rep rest text p.0 p.1
              × (is_inline p.0 ≡ (is_inline s || (dealloc m && leb (length text) max_inline))))
            (try_demote a m (s, h))
    unfolding try_demote
    try_demote-Post s h r = elim (Bool-cases (dealloc m)) [
      | inl eager ↦ rw eager (
          Succeeds.mono (really_try_demote-Post s h r)
            λ y p post. (post.rep, post.place ∙ absorbs s h r))
      | inr lazy ↦ rw lazy (returns (r, ground arith))
    ]

    module _ {A : Type 0} (o : ShrinkOp A) (before : List ℕ) (x : A)
        (shrinks : Shrinks o before text x) where
      run_shrink :
          (s : SmartString) (h : Heap)
          → Rep rest before s h
          → Returns (Post rest text x (is_inline s)) (shrink_cast a m o (cast s) (s, h))
      unfolding shrink_cast
      run_shrink s h (stored b e st) =
          let (c, run, held) = shrinks BoxedString BoxedWf.generic b h st.wf st.text_eq (
            Stored-Room st (length before)
              (omega (arith, ap length st.text_eq, BoxedWf.length-deref b st.wf, st.wf.fits))) in
          rw (ap cast e ∙ cast-from_boxed b st.wf, run)
            (returns (record {
              result = refl;
              rep = stored c refl (Holds-Stored st held);
              place =
                  is_inline-from_boxed c held.wf
                  ∙ sym (ap is_inline e ∙ is_inline-from_boxed b st.wf);
            }))
      run_shrink s h (inlined i e w same) =
          let (c, run, held) =
            shrinks InlineString InlineWf.generic i h w.wf w.text_eq
              (Inlined-Room w (length before) (Inlined-length w)) in
          rw (ap cast e ∙ cast-from_inline i w.wf, run)
            (returns (record {
              result = refl;
              rep = inlined c refl (Holds-Inlined held) same;
              place =
                  is_inline-from_inline c held.wf
                  ∙ sym (ap is_inline e ∙ is_inline-from_inline i w.wf);
            }))

      -- For an operation that turns the text into a new text on every string: on a string of
      -- either form, whatever the allocator answers, the macro returns the operation's result and
      -- the string holds the new text; it is inline exactly when it was inline, or when the mode
      -- is the eager one and the new text fits, and a block that is no longer used has been given
      -- back.
      pub string_op_shrink-Post :
          (s : SmartString) (h : Heap)
          → Rep rest before s h
          → Returns
              (Post rest text x (is_inline s || (dealloc m && leb (length text) max_inline)))
              (string_op_shrink a m o (s, h))
      unfolding string_op_shrink
      string_op_shrink-Post s h r = Succeeds.bind (run_shrink s h r) λ y p post.
          Succeeds.bind (try_demote-Post p.0 p.1 post.rep) λ _ q (rep, place). returns (record {
            result = post.result;
            rep = rep;
            place = place ∙ ap (λ b. b || (dealloc m && leb (length text) max_inline)) post.place;
          })

-- When the operation panics on the text and leaves its string and the heap alone, so does the
-- macro.
pub string_op_shrink-Panics :
    (a : Allocator) (m : Mode) {A : Type 0} (o : ShrinkOp A) (rest : Heap) (text : List ℕ)
    → Panics o text
    → (s : SmartString) (h : Heap) → Rep rest text s h
    → string_op_shrink a m o (s, h) ≡ panicked (s, h)
unfolding string_op_shrink shrink_cast
string_op_shrink-Panics a m o rest text r s h (stored b e st) =
    rw (ap cast e ∙ cast-from_boxed b st.wf, r BoxedString BoxedWf.generic b h st.text_eq, e)
string_op_shrink-Panics a m o rest text r s h (inlined i e w same) =
    rw (ap cast e ∙ cast-from_inline i w.wf, r InlineString InlineWf.generic i h w.text_eq, e)

-- Dropping a string of either form returns and leaves the heap without the string's block, which
-- is freed once and with the layout that it was allocated with.
pub drop-Rep :
    (a : Allocator) (rest : Heap) (text : List ℕ) (s : SmartString) (h : Heap)
    → Rep rest text s h
    → drop a s h ≡ done tt rest
unfolding drop drop_cast
drop-Rep a rest text s h (stored b e st) =
    rw (ap cast e ∙ cast-from_boxed b st.wf) (drop_lem a rest b h st.wf st.owned)
drop-Rep a rest text s h (inlined i e w same) = rw (ap cast e ∙ cast-from_inline i w.wf, same)
