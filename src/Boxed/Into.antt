-- ===== src/Boxed/Into.antt =====
-- `impl From<BoxedString> for String`, in a build without the `Allocator` trait.
use smartstring.Boxed.Strings.{
  RawString, IsString, IsString-moved, OwnsString, without, within, copy_string,
  copy_string-IsString,
}
use smartstring.Boxed.Wf.{length-deref}
use smartstring.Boxed.{drop, deref, BoxedString}
use smartstring.Boxed.Blocks.{Stored, drop_lem}
use smartstring.Prelude.{◌≡◌, ◌∙◌, sym, ap, refl, List, ℕ, arith, length}
use smartstring.Run.{M, pure, ◌>>=◌, ◌>>◌}
use smartstring.Heap.{Heap, Allocator, Owns-swap}
use smartstring.Heap.Succeeds
use smartstring.Heap.Succeeds.{Succeeds, returns}

module _ (a : Allocator) where
  -- The text is copied into a new `String`, and the boxed string is dropped at the end.
  pub into_string : BoxedString → M Heap RawString
  into_string b = do s ← copy_string a (deref b); drop a b; pure s

  -- The boxed string is dropped beside a newer `String`.
  pub drop-IsString :
      (rest : Heap) (b : BoxedString) (h : Heap) (text : List ℕ) (s : RawString) (h' : Heap)
      → Stored rest text b h
      → IsString h text s h'
      → Succeeds a (λ _ h2. IsString rest text s h2) (drop a b h')
  drop-IsString rest b h text s h' st w = freed w.owned
    where
      freed : OwnsString h s h' → Succeeds a (λ _ h2. IsString rest text s h2) (drop a b h')
      freed (without empty same) =
          rw (same, drop_lem a rest b h st.wf st.owned)
            (returns (IsString-moved w (without empty refl)))
      freed (within pos o) =
          let (own, other) = Owns-swap rest b.ptr s.ptr _ _ h h' st.owned o in
          rw (drop_lem a _ b h' st.wf other) (returns (IsString-moved w (within pos own)))

  pub into_string-IsString :
      (rest : Heap) (text : List ℕ) (b : BoxedString) (h : Heap)
      → Stored rest text b h
      → Succeeds a (λ s h'. IsString rest text s h' × (s.capacity ≡ length text)) (into_string b h)
  unfolding into_string
  into_string-IsString rest text b h st =
      Succeeds.bind
        (copy_string-IsString a (deref b) h
          (omega (arith, length-deref b st.wf, st.wf.fits, st.wf.cap_lt)))
        λ s h1 (w, room).
          Succeeds.bind (drop-IsString rest b h text s h1 st (rw (← st.text_eq) w))
            λ _ h2 w2. returns (w2, sym room ∙ ap length st.text_eq)
