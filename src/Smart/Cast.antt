-- ===== src/Smart/Cast.antt =====
-- The discriminant bit: what was written as an inline or as a boxed string is read back as that.
use smartstring.Prelude.{
  ◌<◌, usize_mod, ◌%◌, ◌≡◌, ◌∙◌, refl, sym, ap, true, false, arith, take, take-append_eq,
  drop-append_eq, drop-append_ge, take_all,
}
use smartstring.Bytes.{to_le, from_le, length-to_le, from_le-to_le, from_le_parity}
use smartstring.Marker
use smartstring.Marker.{Discriminant}
use smartstring.Inline.{InlineString, size}
use smartstring.Inline.Wf as InlineWf
use smartstring.Boxed
use smartstring.Boxed.{BoxedString}
use smartstring.Boxed.Wf as BoxedWf
use smartstring.Smart.{
  StringCast, as_boxed, as_inline, from_boxed, from_inline, discriminant, cast, is_inline,
}

-- Fields that are machine words, and an even address.
pub record InWords (b : BoxedString) : Type 0 where
  pub even : b.ptr % 2 ≡ 0
  pub ptr_lt : b.ptr < usize_mod
  pub cap_lt : b.cap < usize_mod
  pub len_lt : b.len < usize_mod

IsWf-InWords : (b : BoxedString) → BoxedWf.IsWf b → InWords b
IsWf-InWords b w = record {
  even = w.even;
  ptr_lt = w.in_range;
  cap_lt = omega (arith, w.cap_lt);
  len_lt = omega (arith, w.fits, w.cap_lt);
}

module _ (b : BoxedString) (w : InWords b) where
  ptr_back : (as_boxed (from_boxed b)).ptr ≡ b.ptr
  unfolding as_boxed from_boxed
  ptr_back =
      ap from_le (take-append_eq 8 (to_le 8 b.ptr) _ (sym (length-to_le 8 b.ptr)))
      ∙ from_le-to_le 8 b.ptr w.ptr_lt

  cap_back : (as_boxed (from_boxed b)).cap ≡ b.cap
  unfolding as_boxed from_boxed
  cap_back =
      ap (λ t. from_le (take 8 t)) (drop-append_eq 8 (to_le 8 b.ptr) _ (sym (length-to_le 8 b.ptr)))
      ∙ ap from_le (take-append_eq 8 (to_le 8 b.cap) _ (sym (length-to_le 8 b.cap)))
      ∙ from_le-to_le 8 b.cap w.cap_lt

  len_back : (as_boxed (from_boxed b)).len ≡ b.len
  unfolding as_boxed from_boxed
  len_back =
      ap (λ t. from_le (take 8 t))
        (drop-append_ge 16 8 (to_le 8 b.ptr) _ (omega (arith, length-to_le 8 b.ptr))
          ∙ drop-append_eq 8 (to_le 8 b.cap) _ (sym (length-to_le 8 b.cap)))
      ∙ ap from_le (take_all 8 (to_le 8 b.len) (omega (arith, length-to_le 8 b.len)))
      ∙ from_le-to_le 8 b.len w.len_lt

  buffer_back : (as_boxed (from_boxed b)).buffer ≡ b.buffer
  unfolding as_boxed from_boxed
  buffer_back = refl

  pub as_boxed-from_boxed : as_boxed (from_boxed b) ≡ b
  as_boxed-from_boxed =
      λ i. record { ptr = ptr_back i; cap = cap_back i; len = len_back i; buffer = buffer_back i }

  -- An even address is no inline marker.
  discriminant_words : discriminant (from_boxed b) ≡ Discriminant.boxed
  unfolding discriminant Boxed.check_alignment
  discriminant_words = rw (as_boxed-from_boxed) (rw w.even Marker.from_bit-false)

  pub cast_words : cast (from_boxed b) ≡ StringCast.boxed b
  unfolding cast
  cast_words = rw discriminant_words (ap StringCast.boxed as_boxed-from_boxed)

  pub is_inline_words : is_inline (from_boxed b) ≡ false
  unfolding is_inline
  is_inline_words = rw (discriminant_words, is_inline)

module _ (b : BoxedString) (w : BoxedWf.IsWf b) where
  -- A boxed string that is well formed (its address is even and below 2^64) and is written into
  -- the shared memory is read back as the same boxed string.
  pub cast-from_boxed : cast (from_boxed b) ≡ StringCast.boxed b
  cast-from_boxed = cast_words b (IsWf-InWords b w)

  pub is_inline-from_boxed : is_inline (from_boxed b) ≡ false
  is_inline-from_boxed = is_inline_words b (IsWf-InWords b w)

-- The marker makes the word that a boxed string keeps its address in odd.
module _ (s : InlineString) (odd : s.marker.byte % 2 ≡ 1) where
  as_inline-from_inline : as_inline (from_inline s) ≡ s
  unfolding as_inline from_inline
  as_inline-from_inline = refl

  ptr_odd : (as_boxed (from_inline s)).ptr % 2 ≡ 1
  unfolding as_boxed from_inline
  ptr_odd = from_le_parity s.marker.byte (take 7 s.bytes) ∙ odd

  discriminant_marked : discriminant (from_inline s) ≡ Discriminant.inline
  unfolding discriminant Boxed.check_alignment
  discriminant_marked = rw ptr_odd Marker.from_bit-true

  pub cast_marked : cast (from_inline s) ≡ StringCast.inline s
  unfolding cast
  cast_marked = rw discriminant_marked (ap StringCast.inline as_inline-from_inline)

module _ (s : InlineString) (w : InlineWf.IsWf s) where
  odd_marker : s.marker.byte % 2 ≡ 1
  odd_marker = rw w.marked (omega (arith, Marker.new_inline_byte (size s) (omega (arith, w.fits))))

  -- A well-formed inline string that is written into the shared memory is read back as the same
  -- inline string: its marker makes the word that a boxed string keeps its address in odd.
  pub cast-from_inline : cast (from_inline s) ≡ StringCast.inline s
  cast-from_inline = cast_marked s odd_marker

  pub is_inline-from_inline : is_inline (from_inline s) ≡ true
  unfolding is_inline
  is_inline-from_inline = rw (discriminant_marked s odd_marker, is_inline)
