-- ===== src/Boxed/Takeover/Gives.antt =====
-- A `String` is made of a boxed string.
use smartstring.Boxed.Strings.{bytes_layout, within, IsString, copy_string-IsString}
use smartstring.Boxed.Wf.{length-deref}
use smartstring.Boxed.{deref, BoxedString}
use smartstring.Boxed.Into.{drop-IsString}
use smartstring.Prelude.{take-append_le, ℕ, ◌∙◌, refl, sym, List, Option, none, some, arith}
use smartstring.Heap.{Heap}
use smartstring.Heap.Succeeds
use smartstring.Heap.Succeeds.{Succeeds, returns, gives_up}
use smartstring.Boxed.Takeover.{Global, given, into_raw}
use smartstring.Boxed.Blocks.{Stored, block, layout_for-some, deref_lem}
use smartstring.Heap.{layout_array-some}
use smartstring.Heap.Succeeds
use smartstring.Heap.Succeeds.{Succeeds, Exhausted, returns, gives_up}
use smartstring.Boxed.Takeover.Grows.{Grew, refused, moved, grow_block-Grew}

module _ (g : Global) where
  given-IsString :
      (rest : Heap) (text : List ℕ) (b : BoxedString) (h : Heap)
      → Stored rest text b h
      → (answer : Option (ℕ × List ℕ)) (h' : Heap)
      → Grew rest (bytes_layout b.cap) b.buffer h answer h'
      → Succeeds g.base (λ s h'. IsString rest text s h') (given g b answer h')
  unfolding given
  given-IsString rest text b h st none h' refused =
      Succeeds.bind
        (copy_string-IsString g.base (deref b) h
          (omega (arith, length-deref b st.wf, st.wf.fits, st.wf.cap_lt)))
        λ s h1 (w, _).
          Succeeds.bind (drop-IsString g.base rest b h text s h1 st (rw (← st.text_eq) w))
            λ _ h2 w2. returns w2
  given-IsString rest text b h st (some _) h' (moved q bytes granted full) = returns (record {
    fits = st.wf.fits;
    full = full;
    capacity_lt = st.wf.cap_lt;
    text_eq =
        take-append_le b.len b.buffer bytes (omega (arith, st.wf.fits, st.wf.full))
        ∙ sym (deref_lem b)
        ∙ st.text_eq;
    owned = within st.wf.cap_pos (record { live = refl; unused = granted.unused });
  })

  -- Turning a boxed string into a `String`, unless the allocator answers null, keeps the text, and
  -- leaves no block but the one of the `String`.
  pub into_raw-IsString :
      (rest : Heap) (text : List ℕ) (b : BoxedString) (h : Heap)
      → Stored rest text b h
      → Succeeds g.base (λ s h'. IsString rest text s h') (into_raw g b h)
  unfolding into_raw
  into_raw-IsString rest text b h st = rw (layout_array-some b.cap (omega (arith, st.wf.cap_lt))) (
      rw (layout_for-some b.cap st.wf.cap_lt) (
        Succeeds.bind
          (grow_block-Grew g rest b.ptr (block b.cap) (bytes_layout b.cap) b.buffer h st.owned
            (omega arith) st.wf.full)
          λ answer h'. given-IsString rest text b h st answer h'))
