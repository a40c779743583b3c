-- ===== src/Smart/Methods/Inserts.antt =====
-- `insert` and `insert_str`.
use smartstring.Prelude.{ℕ, ◌+◌, ◌<◌, ◌≡◌, true, List, arith, length}
use smartstring.Heap.{Heap, Allocator}
use smartstring.Heap.Succeeds.{Succeeds}
use smartstring.Utf8.{encode_utf8, len_utf8, is_char_boundary}
use smartstring.Utf8.Laws.{length-encode_utf8, boundary_le}
use smartstring.Boxed.Grow.{request_limit}
use smartstring.Ops.Splice.{splice}
use smartstring.Ops.InsertBytes.{length-splice}
use smartstring.Ops.Insert
use smartstring.Ops.InsertStr
use smartstring.Smart.{SmartString, is_inline}
use smartstring.Smart.Rep.{Rep}
use smartstring.Smart.Macros.Grow.{Post, string_op_grow-Post}
use smartstring.Smart.Methods.{insert, insert_str}
use smartstring.Smart.Methods.Laws.{grown_inline}

module _ (a : Allocator) (rest : Heap) (text : List ℕ) (s : SmartString) (h : Heap)
    (r : Rep rest text s h) (index : ℕ) (b : is_char_boundary text index ≡ true) where
  -- At an index on a character boundary, with the new length below 2^62, unless the allocator
  -- answers null, the character's encoding is inserted there, and the result is inline exactly
  -- when the string was and the new text fits.
  pub insert-Post :
      (ch : ℕ)
      → length text + len_utf8 ch < request_limit
      → Succeeds a
          (Post rest
            (splice index index (encode_utf8 ch) text)
            tt
            (grown_inline (is_inline s) (splice index index (encode_utf8 ch) text)))
          (insert a index ch (s, h))
  unfolding insert
  insert-Post ch lim =
      let le = boundary_le text index b in
      string_op_grow-Post a (Insert.grow index ch) rest text
        (splice index index (encode_utf8 ch) text) tt
        (Insert.grow-Grows index ch text b (omega arith))
        (omega (
          arith,
          le,
          length-splice index index (encode_utf8 ch) text (omega arith) le,
          length-encode_utf8 ch,
        ))
        s h r

  -- At an index on a character boundary, with the two lengths together below 2^62, unless the
  -- allocator answers null, the string is inserted there, and the result is inline exactly when
  -- the string was and the new text fits.
  pub insert_str-Post :
      (string : List ℕ)
      → length text + length string < request_limit
      → Succeeds a
          (Post rest
            (splice index index string text)
            tt
            (grown_inline (is_inline s) (splice index index string text)))
          (insert_str a index string (s, h))
  unfolding insert_str
  insert_str-Post string lim =
      let le = boundary_le text index b in
      string_op_grow-Post a (InsertStr.grow index string) rest text (splice index index string text)
        tt (InsertStr.grow-Grows index string text b (omega arith))
        (omega (arith, le, length-splice index index string text (omega arith) le)) s h r
