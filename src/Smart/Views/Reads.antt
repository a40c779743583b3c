-- ===== src/Smart/Views/Reads.antt =====
-- The memory as it is read: its words, its first byte, and the struct that it is cast to.
use smartstring.Prelude.{
  take_all, drop-drop, take-append-drop, get_or, length-take, length-drop, drop, usize_mod,
  usize_mod, ◌%◌, ℕ, ◌+◌, ◌≤◌, ◌<◌, ◌≡◌, ◌∙◌, ◌⊎◌, refl, sym, ap, inl, inr, true, List, [], ◌∷◌,
  ◌++◌, arith, length, take, drop,
}
use smartstring.Bytes.{
  AreBytes, AreBytes-take, AreBytes-drop, to_le-from_le, from_le-lt, from_le, to_le, from_le_parity,
}
use smartstring.Marker
use smartstring.Marker.{Discriminant}
use smartstring.Boxed
use smartstring.Boxed.{BoxedString}
use smartstring.Smart.{
  SmartString, boxed, inline, as_boxed, as_inline, from_boxed, from_inline, discriminant, cast,
  is_inline,
}
use smartstring.Smart.Cast.{cast_words, cast_marked}
use smartstring.Smart.Views.{IsMemory, IsView, view-InWords, write}

word-lt : (bs : List ℕ) → AreBytes bs → length bs ≡ 8 → from_le bs < usize_mod
word-lt bs all e = rw e at (from_le-lt bs all)

-- The word at an offset of the memory.
word : ℕ → SmartString → List ℕ
word offset s = take 8 (drop offset s.memory)

word-full :
    (offset : ℕ) (s : SmartString) → IsMemory s → offset + 8 ≤ 24 → length (word offset s) ≡ 8
unfolding word
word-full offset s (full, _, _) h =
    omega (arith, full, length-take 8 (drop offset s.memory), length-drop offset s.memory)

word-AreBytes : (offset : ℕ) (s : SmartString) → IsMemory s → AreBytes (word offset s)
unfolding word
word-AreBytes offset s (_, bytes, _) =
    AreBytes-take 8 (drop offset s.memory) (AreBytes-drop offset s.memory bytes)

rewritten :
    (offset : ℕ) (s : SmartString)
    → IsMemory s
    → offset + 8 ≤ 24
    → to_le 8 (from_le (word offset s)) ≡ word offset s
rewritten offset s w h =
    rw (word-full offset s w h) at (to_le-from_le (word offset s) (word-AreBytes offset s w))

three_words :
    (m : List ℕ) → length m ≡ 24 → take 8 m ++ (take 8 (drop 8 m) ++ take 8 (drop 16 m)) ≡ m
three_words m full =
    rw
      (
        take_all 8 (drop 16 m) (omega (arith, full, length-drop 16 m)),
        ← drop-drop 8 8 m,
        take-append-drop 8 (drop 8 m),
      )
      (take-append-drop 8 m)

-- The marker is the lowest byte of the address.
first_byte :
    (m : List ℕ)
    → length m ≡ 24
    → AreBytes m
    → (get_or m 0 0 ∷ drop 1 m ≡ m)
      × (from_le (take 8 m) % 2 ≡ get_or m 0 0 % 2)
      × (get_or m 0 0 < 256)
      × (length (drop 1 m) ≡ 23)
      × AreBytes (drop 1 m)
first_byte [] full all = absurd (omega (arith, full))
first_byte (b ∷ bs) full (lt, all) =
    (refl, from_le_parity b (take 7 bs), lt, omega (arith, full), all)

module _ (s : SmartString) (w : IsMemory s) where
  as_boxed-InWords : (as_boxed s).ptr % 2 ≡ 0 → IsView (boxed (as_boxed s))
  unfolding as_boxed word
  as_boxed-InWords even = (
    even,
    word-lt (word 0 s) (word-AreBytes 0 s w) (word-full 0 s w (omega arith)),
    word-lt (word 8 s) (word-AreBytes 8 s w) (word-full 8 s w (omega arith)),
    word-lt (word 16 s) (word-AreBytes 16 s w) (word-full 16 s w (omega arith)),
  )

  from_boxed-as_boxed : (from_boxed (as_boxed s)).memory ≡ s.memory
  unfolding from_boxed as_boxed word
  from_boxed-as_boxed =
      rw
        (
          rewritten 0 s w (omega arith),
          rewritten 8 s w (omega arith),
          rewritten 16 s w (omega arith),
        )
        (three_words s.memory w.0)

  boxed_back : from_boxed (as_boxed s) ≡ s
  unfolding from_boxed as_boxed
  boxed_back = λ i. record { memory = from_boxed-as_boxed i; owned = s.owned }

  odd-inline : (as_boxed s).ptr % 2 ≡ 1 → discriminant s ≡ Discriminant.inline
  unfolding discriminant Boxed.check_alignment
  odd-inline odd = rw odd Marker.from_bit-true

  inline_here : (as_boxed s).ptr % 2 ≡ 1 → is_inline s ≡ true
  unfolding is_inline
  inline_here odd = rw (odd-inline odd, is_inline)

  inline_back : (as_boxed s).ptr % 2 ≡ 1 → from_inline (as_inline s) ≡ s
  unfolding from_inline as_inline
  inline_back odd = λ i. record {
    memory = (first_byte s.memory w.0 w.1).0 i;
    owned = sym (w.2 (inline_here odd)) i;
  }

  as_inline-IsView : (as_boxed s).ptr % 2 ≡ 1 → IsView (inline (as_inline s))
  unfolding as_inline as_boxed
  as_inline-IsView odd =
      let (_, parity, lt, full, bytes) = first_byte s.memory w.0 w.1 in
      (sym parity ∙ odd, lt, full, bytes)

  -- What the discriminant says is what the memory is cast to, and it can be written back.
  boxed_seen :
      (as_boxed s).ptr % 2 ≡ 0 → (cast s ≡ boxed (as_boxed s)) × IsView (boxed (as_boxed s))
  boxed_seen even =
      let view = as_boxed-InWords even in
      (sym (ap cast boxed_back) ∙ cast_words (as_boxed s) (view-InWords (as_boxed s) view), view)

  inline_seen :
      (as_boxed s).ptr % 2 ≡ 1 → (cast s ≡ inline (as_inline s)) × IsView (inline (as_inline s))
  inline_seen odd =
      let view = as_inline-IsView odd in
      (sym (ap cast (inline_back odd)) ∙ cast_marked (as_inline s) view.0, view)

parity : (n : ℕ) → (n % 2 ≡ 0) ⊎ (n % 2 ≡ 1)
parity n = ground arith

pub cast-IsView : (s : SmartString) → IsMemory s → IsView (cast s) × (write (cast s) ≡ s)
unfolding write
cast-IsView s w = elim (parity (as_boxed s).ptr) [
  | inl even ↦ let (e, view) = boxed_seen s w even in rw e (view, boxed_back s w)
  | inr odd ↦ let (e, view) = inline_seen s w odd in rw e (view, inline_back s w odd)
]
