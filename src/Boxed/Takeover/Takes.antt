-- ===== src/Boxed/Takeover/Takes.antt =====
-- A boxed string is made of a `String`.
use smartstring.Boxed.Strings.{
  OwnsString-swap, RawString, text_of, bytes_layout, drop_string, OwnsString, without, within,
  IsString, drop_string_lem,
}
use smartstring.Boxed.{BoxedString}
use smartstring.Prelude.{
  ==_iff, length-take_le, take-append_le, ℕ, ◌<◌, ◌≡◌, ◌∙◌, refl, sym, ap, inl, inr, true, false,
  List, [], Option, none, some, arith, ◌==◌, Bool-cases, take,
}
use smartstring.Heap.{Heap}
use smartstring.Heap.Succeeds
use smartstring.Heap.Succeeds.{Succeeds, returns, gives_up}
use smartstring.Boxed.Takeover.{Global, taken, from_raw}
use smartstring.Boxed.Blocks.{
  Stored, block, layout_for-some, deref_lem, new-Stored, from_str-Stored,
}
use smartstring.Heap.{Owns, layout_array-some}
use smartstring.Heap.Succeeds
use smartstring.Heap.Succeeds.{Succeeds, Exhausted, returns, gives_up}
use smartstring.Boxed.Takeover.Grows.{Grew, refused, moved, grow_block-Grew}

module _ (g : Global) where
  -- The new boxed string stays when the old `String` is dropped.
  drop_string-Stored :
      (rest : Heap) (s : RawString) (h : Heap) (text : List ℕ) (b : BoxedString) (h' : Heap)
      → OwnsString rest s h
      → Stored h text b h'
      → Succeeds g.base (λ _ h2. Stored rest text b h2) (drop_string g.base s h')
  drop_string-Stored rest s h text b h' owned st =
      let (mid, kept, older) = OwnsString-swap b.ptr (block b.cap) owned st.owned in
      rw (drop_string_lem g.base mid s h' older)
        (returns (record { wf = st.wf; owned = kept; text_eq = st.text_eq }))

  taken-Stored :
      (rest : Heap) (text : List ℕ) (s : RawString) (h : Heap)
      → IsString rest text s h
      → 0 < s.capacity
      → (answer : Option (ℕ × List ℕ)) (h' : Heap)
      → Grew rest (block s.capacity) s.bytes h answer h'
      → Succeeds g.base (λ b h'. Stored rest text b h') (taken g s answer h')
  unfolding taken
  taken-Stored rest text s h w pos none h' refused =
      Succeeds.bind
        (from_str-Stored g.base h s.capacity (text_of s) w.capacity_lt
          (omega (arith, length-take_le s.len s.bytes (omega (arith, w.fits, w.full)), w.fits)))
        λ b h' (st, _).
          Succeeds.bind (drop_string-Stored rest s h text b h' w.owned (rw (← w.text_eq) st))
            λ _ h2 st2. returns st2
  taken-Stored rest text s h w pos (some _) h' (moved q b granted full) = returns (record {
    wf = record {
      fits = w.fits;
      full = full;
      cap_pos = pos;
      cap_lt = w.capacity_lt;
      nonnull = granted.nonnull;
      even = granted.aligned;
      in_range = granted.in_range;
    };
    owned = record { live = refl; unused = granted.unused };
    text_eq =
        deref_lem _ ∙ take-append_le s.len s.bytes b (omega (arith, w.fits, w.full)) ∙ w.text_eq;
  })

  -- From a `String` that holds the text, with a capacity below 2^63 - 1, unless the allocator
  -- answers null: the boxed string holds the text, and the one block is its own.
  pub from_raw-Stored :
      (rest : Heap) (text : List ℕ) (s : RawString) (h : Heap)
      → IsString rest text s h
      → Succeeds g.base (λ b h'. Stored rest text b h') (from_raw g s h)
  unfolding from_raw
  from_raw-Stored rest text s h w = elim (Bool-cases (s.len == 0)) [
    | inl empty ↦ rw empty (
        Succeeds.bind (new-Stored g.base h s.capacity w.capacity_lt) λ b h' (st, _, _).
          Succeeds.bind (drop_string-Stored rest s h text b h' w.owned (rw (as_text empty) st))
            λ _ h2 st2. returns st2)
    | inr some_text ↦
        rw (some_text, layout_array-some s.capacity (omega (arith, w.capacity_lt)))
          (rw (layout_for-some s.capacity w.capacity_lt) (
            Succeeds.bind
              (grow_block-Grew g rest s.ptr _ (block s.capacity) s.bytes h
                (block_of w.owned some_text) (omega arith) w.full)
              λ answer h'.
                taken-Stored rest text s h w (omega (arith, len_pos some_text, w.fits)) answer h'))
  ]
    where
      as_text : s.len == 0 ≡ true → text ≡ []
      as_text empty =
          let none_left : s.len ≡ 0 = (==_iff s.len 0).0 empty in
          sym w.text_eq ∙ ap (λ n. take n s.bytes) none_left

      len_pos : s.len == 0 ≡ false → 0 < s.len
      len_pos some_text = ground arith

      block_of :
          OwnsString rest s h → s.len == 0 ≡ false → Owns rest s.ptr (bytes_layout s.capacity) h
      block_of (without empty same) some_text = absurd (omega (arith, w.fits, len_pos some_text))
      block_of (within pos o) some_text = o
