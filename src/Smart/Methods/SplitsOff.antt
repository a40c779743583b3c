-- ===== src/Smart/Methods/SplitsOff.antt =====
-- `split_off`.
use smartstring.Smart.Convert.Laws.{from_str-Made}
use smartstring.Smart.Methods.Laws.{shrunk_inline}
use smartstring.Smart.Macros.Splits.{string_op_shrink-Both, Both}
use smartstring.Smart.Macros.Shrink.{string_op_shrink-Panics}
use smartstring.Utf8.{is_char_boundary}
use smartstring.Smart.Rep.{Rep}
use smartstring.Smart.{is_inline, SmartString, Mode}
use smartstring.Prelude.{
  length-drop, isize_max, ℕ, ◌<◌, ◌≡◌, true, false, List, arith, length, take, drop,
}
use smartstring.Run.{panicked}
use smartstring.Heap.{Heap, Allocator}
use smartstring.Heap.Succeeds.{Succeeds}
use smartstring.Ops.SplitOff
use smartstring.Smart.Methods.{from_str, split_off}

module _ (a : Allocator) (m : Mode) (rest : Heap) (text : List ℕ) (s : SmartString) (h : Heap)
    (r : Rep rest text s h) (index : ℕ) where
  -- At an index on a character boundary, with a text below 2^63 - 1 bytes: unless the allocator
  -- answers null, split_off returns a string of the text from the index on, which is inline
  -- exactly when that fits, and leaves the text before the index; each of the two strings owns a
  -- block of its own or none, and the one that is left is inline exactly when it was or when the
  -- mode is eager and its text fits.
  pub split_off-Both :
      is_char_boundary text index ≡ true
      → length text < isize_max
      → Succeeds a
          (Both rest
            (take index text)
            (drop index text)
            (shrunk_inline m (is_inline s) (take index text)))
          (split_off a m index (s, h))
  unfolding split_off
  split_off-Both b lim =
      string_op_shrink-Both a m (SplitOff.shrink (from_str a) index) rest text (take index text)
        (drop index text)
        (λ S g s h w e.
          SplitOff.shrink-splits a (from_str a) index text b S g s h w e
            (from_str-Made a h (drop index text) (omega (arith, length-drop index text))))
        s h r

  pub split_off-panics :
      is_char_boundary text index ≡ false → split_off a m index (s, h) ≡ panicked (s, h)
  unfolding split_off
  split_off-panics off =
      string_op_shrink-Panics a m (SplitOff.shrink (from_str a) index) rest text
        (SplitOff.shrink-Panics (from_str a) index text off) s h r
