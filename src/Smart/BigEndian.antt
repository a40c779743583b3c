-- ===== src/Smart/BigEndian.antt =====
-- The structs and the casts on a big-endian machine: the fields stand in the opposite order, so that
-- the lowest bit of the address is in the last byte, and so is the marker.
use smartstring.Prelude.{
  length-drop, drop-append_le, take_all, ◌%◌, drop-append_ge, drop-append_eq, take-append_eq, ◌^◌,
  get_or, ◌/◌, ℕ, zero, suc, ◌+◌, ◌*◌, ◌<◌, ◌≡◌, ◌∙◌, refl, sym, ap, List, [], ◌∷◌, ◌++◌, arith,
  length, take, drop, length-append,
}
use native.Mathlib.Nat.{pow-suc}
use smartstring.Marker
use smartstring.Marker.{Discriminant}
use smartstring.Inline.{InlineString}
use smartstring.Boxed
use smartstring.Boxed.{BoxedString}
use smartstring.Smart.{SmartString, StringCast, boxed, inline}
use smartstring.Smart.Cast.{InWords}
use smartstring.Smart.Views.{IsView, view-InWords}

-- A `usize` as eight bytes, highest first.
to_be : ℕ → ℕ → List ℕ
to_be zero n = []
to_be (suc k) n = to_be k (n / 256) ++ ((n % 256) ∷ [])

value : ℕ → List ℕ → ℕ
value high [] = high
value high (b ∷ bs) = value (high * 256 + b) bs

from_be : List ℕ → ℕ
unfolding value
from_be bs = value 0 bs

pub as_boxed : SmartString → BoxedString
as_boxed s = record {
  ptr = from_be (take 8 (drop 16 s.memory));
  cap = from_be (take 8 (drop 8 s.memory));
  len = from_be (take 8 s.memory);
  buffer = s.owned;
}

pub as_inline : SmartString → InlineString
as_inline s = record {
  marker = record { byte = get_or (drop 23 s.memory) 0 0 };
  bytes = take 23 s.memory;
}

pub from_boxed : BoxedString → SmartString
from_boxed b = record {
  memory = to_be 8 b.len ++ (to_be 8 b.cap ++ to_be 8 b.ptr);
  owned = b.buffer;
}

pub from_inline : InlineString → SmartString
from_inline i = record { memory = i.bytes ++ (i.marker.byte ∷ []); owned = [] }

pub discriminant : SmartString → Discriminant
discriminant s = Marker.from_bit (Boxed.check_alignment (as_boxed s))

cast_as : Discriminant → SmartString → StringCast
cast_as Discriminant.inline s = inline (as_inline s)
cast_as Discriminant.boxed s = boxed (as_boxed s)

pub cast : SmartString → StringCast
unfolding cast_as
cast s = cast_as (discriminant s) s

-- The struct in the memory.
pub write : StringCast → SmartString
write (boxed b) = from_boxed b
write (inline i) = from_inline i

value-append : (high : ℕ) (xs ys : List ℕ) → value high (xs ++ ys) ≡ value (value high xs) ys
unfolding value
value-append high [] ys = refl
value-append high (x ∷ xs) ys = value-append (high * 256 + x) xs ys

-- The last byte is the lowest.
from_be-last : (xs : List ℕ) (b : ℕ) → from_be (xs ++ (b ∷ [])) ≡ from_be xs * 256 + b
unfolding from_be value
from_be-last xs b = value-append 0 xs (b ∷ [])

from_be-to_be : (k n : ℕ) → n < 256 ^ k → from_be (to_be k n) ≡ n
unfolding to_be from_be value
from_be-to_be zero n h = omega arith
from_be-to_be (suc k) n h =
    let e : 256 ^ suc k ≡ 256 ^ k * 256 = pow-suc 256 k in
    omega (
      arith,
      from_be-last (to_be k (n / 256)) (n % 256),
      from_be-to_be k (n / 256) (omega (arith, e)),
    )

length-to_be : (k n : ℕ) → length (to_be k n) ≡ k
unfolding to_be
length-to_be zero n = refl
length-to_be (suc k) n =
    omega (arith, length-append (to_be k (n / 256)) ((n % 256) ∷ []), length-to_be k (n / 256))

module _ (b : BoxedString) (w : InWords b) where
  len_back : (as_boxed (from_boxed b)).len ≡ b.len
  unfolding as_boxed from_boxed
  len_back =
      ap from_be (
        take-append_eq 8 (to_be 8 b.len) (to_be 8 b.cap ++ to_be 8 b.ptr)
          (sym (length-to_be 8 b.len)))
      ∙ from_be-to_be 8 b.len w.len_lt

  cap_back : (as_boxed (from_boxed b)).cap ≡ b.cap
  unfolding as_boxed from_boxed
  cap_back =
      ap (λ t. from_be (take 8 t))
        (drop-append_eq 8 (to_be 8 b.len) (to_be 8 b.cap ++ to_be 8 b.ptr)
          (sym (length-to_be 8 b.len)))
      ∙ ap from_be (take-append_eq 8 (to_be 8 b.cap) (to_be 8 b.ptr) (sym (length-to_be 8 b.cap)))
      ∙ from_be-to_be 8 b.cap w.cap_lt

  ptr_back : (as_boxed (from_boxed b)).ptr ≡ b.ptr
  unfolding as_boxed from_boxed
  ptr_back =
      ap (λ t. from_be (take 8 t))
        (drop-append_ge 16 8 (to_be 8 b.len) (to_be 8 b.cap ++ to_be 8 b.ptr)
            (omega (arith, length-to_be 8 b.len))
          ∙ drop-append_eq 8 (to_be 8 b.cap) (to_be 8 b.ptr) (sym (length-to_be 8 b.cap)))
      ∙ ap from_be (take_all 8 (to_be 8 b.ptr) (omega (arith, length-to_be 8 b.ptr)))
      ∙ from_be-to_be 8 b.ptr w.ptr_lt

  buffer_back : (as_boxed (from_boxed b)).buffer ≡ b.buffer
  unfolding as_boxed from_boxed
  buffer_back = refl

  as_boxed-from_boxed : as_boxed (from_boxed b) ≡ b
  as_boxed-from_boxed =
      λ i. record { ptr = ptr_back i; cap = cap_back i; len = len_back i; buffer = buffer_back i }

  discriminant-from_boxed : discriminant (from_boxed b) ≡ Discriminant.boxed
  unfolding discriminant Boxed.check_alignment
  discriminant-from_boxed = rw as_boxed-from_boxed (rw w.even Marker.from_bit-false)

  boxed_back : cast (from_boxed b) ≡ boxed b
  unfolding cast
  boxed_back = rw discriminant-from_boxed (ap StringCast.boxed as_boxed-from_boxed)

module _ (i : InlineString) (odd : i.marker.byte % 2 ≡ 1) (full : length i.bytes ≡ 23) where
  as_inline-from_inline : as_inline (from_inline i) ≡ i
  unfolding as_inline from_inline
  as_inline-from_inline = λ j. record {
    marker = record {
      byte = get_or (drop-append_eq 23 i.bytes (i.marker.byte ∷ []) (sym full) j) 0 0;
    };
    bytes = take-append_eq 23 i.bytes (i.marker.byte ∷ []) (sym full) j;
  }

  ptr_odd : (as_boxed (from_inline i)).ptr % 2 ≡ 1
  unfolding as_boxed from_inline
  ptr_odd =
      let last = drop 16 i.bytes ++ (i.marker.byte ∷ []) in
      let word : take 8 (drop 16 (i.bytes ++ (i.marker.byte ∷ []))) ≡ last =
        ap (λ t. take 8 t) (drop-append_le 16 i.bytes (i.marker.byte ∷ []) (omega (arith, full)))
        ∙ take_all 8 last (
            omega (
              arith,
              full,
              length-drop 16 i.bytes,
              length-append (drop 16 i.bytes) (i.marker.byte ∷ []),
            )) in
      omega (arith, ap from_be word, from_be-last (drop 16 i.bytes) i.marker.byte, odd)

  discriminant-from_inline : discriminant (from_inline i) ≡ Discriminant.inline
  unfolding discriminant Boxed.check_alignment
  discriminant-from_inline = rw ptr_odd Marker.from_bit-true

  inline_back : cast (from_inline i) ≡ inline i
  unfolding cast
  inline_back = rw discriminant-from_inline (ap StringCast.inline as_inline-from_inline)

-- On a big-endian machine, where the fields stand in the opposite order and the marker is the last
-- byte: a struct with fields that fit the machine, an even address if it is a boxed string and an
-- odd marker if it is an inline one, that is written into the memory is read back as the same
-- struct.
pub cast-write : (c : StringCast) → IsView c → cast (write c) ≡ c
unfolding write
cast-write (boxed b) view = boxed_back b (view-InWords b view)
cast-write (inline i) view = inline_back i view.0 view.2
