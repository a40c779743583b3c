-- ===== src/Smart/Methods/Retains.antt =====
-- `retain`.
use smartstring.Smart.Macros.Shrink.{string_op_shrink-Post}
use smartstring.Smart.Macros.Breaks.{string_op_shrink-Breaks}
use smartstring.Smart.Methods.Laws.{shrunk_inline}
use smartstring.Smart.Macros.Grow.{Post}
use smartstring.Smart.Rep.{Rep}
use smartstring.Utf8.{encode, IsScalar}
use smartstring.Ops.Retain.{Predicate}
use smartstring.Smart.{is_inline, SmartString, Mode}
use smartstring.Prelude.{ℕ, ◌≡◌, List, All}
use smartstring.Run.{panicked}
use smartstring.Heap.{Heap, Allocator}
use smartstring.Heap.Succeeds.{Returns}
use smartstring.Ops.Retain
use smartstring.Ops.Retain.Shrinks.{shrink-Shrinks, shrink-Breaks}
use smartstring.Ops.Retain.Scan.{finished, stopped, scan, over}
use smartstring.Smart.Methods.{retain}

module _ (a : Allocator) (m : Mode) {E : Type 0} (f : Predicate E) (e : E) (rest : Heap)
    (text cs : List ℕ) (scalars : All IsScalar cs) (split : encode cs ≡ text) (s : SmartString)
    (h : Heap) (r : Rep rest text s h) where
  -- On a string whose text is the encoding of some characters, with a predicate that has a state
  -- of its own and answers for every character: whatever the allocator answers, retain returns and
  -- leaves exactly the characters that the predicate keeps, in their order, and the predicate in
  -- the state that it ends in, and the string is inline exactly when it was or when the mode is
  -- eager and the new text fits.
  pub retain-Post :
      (ks : List ℕ) (e' : E)
      → scan f cs e ≡ finished ks e'
      → Returns
          (Post rest (encode ks) e' (shrunk_inline m (is_inline s) (encode ks)))
          (retain a m f e (s, h))
  unfolding retain
  retain-Post ks e' end =
      string_op_shrink-Post a rest (encode ks) m (Retain.shrink f e) text e'
        (shrink-Shrinks f e text cs scalars split ks e' end) s h r

  -- On a string whose text is the encoding of some characters: where the predicate panics at one
  -- of them, retain panics with the heap and the form of the string unchanged, and the text then
  -- has its old length, with the bytes of the characters that were kept so far written over its
  -- start.
  pub retain-breaks :
      (ks : List ℕ)
      → scan f cs e ≡ stopped ks
      → (s' : SmartString) × (retain a m f e (s, h) ≡ panicked (s', h))
        × Rep rest (over (encode ks) text) s' h
        × (is_inline s' ≡ is_inline s)
  unfolding retain
  retain-breaks ks stop =
      string_op_shrink-Breaks a m (Retain.shrink f e) rest text (over (encode ks) text)
        (shrink-Breaks f e text cs scalars split ks stop) s h r
