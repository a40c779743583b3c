-- ===== src/Smart/Methods/Cuts.antt =====
-- `truncate`, `pop` and `remove`.
use smartstring.Prelude.{ℕ, ◌+◌, ◌-◌, ◌≤◌, ◌<◌, ◌≡◌, true, List, [], none, some, length, take, drop}
use smartstring.Heap.{Heap, Allocator}
use smartstring.Heap.Succeeds.{Returns}
use smartstring.Utf8.{len_utf8, is_char_boundary, first_char, last_char}
use smartstring.Utf8.Laws.{get_from_boundary}
use smartstring.Ops.Splice.{splice}
use smartstring.Ops.Truncate
use smartstring.Ops.Pop
use smartstring.Ops.Remove
use smartstring.Smart.{SmartString, Mode, is_inline}
use smartstring.Smart.Rep.{Rep}
use smartstring.Smart.Macros.Grow.{Post}
use smartstring.Smart.Macros.Shrink.{string_op_shrink-Post}
use smartstring.Smart.Methods.{truncate, pop, remove}
use smartstring.Smart.Methods.Laws.{shrunk_inline}

module _ (a : Allocator) (m : Mode) (rest : Heap) (text : List ℕ) (s : SmartString) (h : Heap)
    (r : Rep rest text s h) where
  -- For a shorter length on a character boundary, whatever the allocator answers, truncate
  -- returns: the text is cut there, and the string is inline exactly when it was or when the mode
  -- is eager and the new text fits.
  pub truncate-Post :
      (new_len : ℕ)
      → new_len < length text
      → is_char_boundary text new_len ≡ true
      → Returns
          (Post rest (take new_len text) tt (shrunk_inline m (is_inline s) (take new_len text)))
          (truncate a m new_len (s, h))
  unfolding truncate
  truncate-Post new_len lt b =
      string_op_shrink-Post a rest (take new_len text) m (Truncate.shrink new_len) text tt
        (Truncate.shrink-Shrinks new_len text lt b) s h r

  pub truncate_beyond :
      (new_len : ℕ)
      → length text ≤ new_len
      → Returns
          (Post rest text tt (shrunk_inline m (is_inline s) text))
          (truncate a m new_len (s, h))
  unfolding truncate
  truncate_beyond new_len le =
      string_op_shrink-Post a rest text m (Truncate.shrink new_len) text tt
        (Truncate.shrink_beyond new_len text le) s h r

  -- Where the text ends with a character, whatever the allocator answers, that character is
  -- returned and its bytes are cut off; the string is inline exactly when it was or when the mode
  -- is eager and the new text fits.
  pub pop-Post :
      (ch : ℕ)
      → last_char text ≡ some ch
      → len_utf8 ch ≤ length text
      → Returns
          (Post rest
            (take (length text - len_utf8 ch) text)
            (some ch)
            (shrunk_inline m (is_inline s) (take (length text - len_utf8 ch) text)))
          (pop a m (s, h))
  unfolding pop
  pop-Post ch last le =
      string_op_shrink-Post a rest (take (length text - len_utf8 ch) text) m Pop.shrink text
        (some ch) (Pop.shrink-Shrinks ch text last le) s h r

  pub pop_empty :
      last_char text ≡ none
      → Returns (Post rest text none (shrunk_inline m (is_inline s) text)) (pop a m (s, h))
  unfolding pop
  pop_empty last =
      string_op_shrink-Post a rest text m Pop.shrink text none (Pop.shrink_empty text last) s h r

  -- Where the text has a character at the index, whatever the allocator answers, that character is
  -- returned and its bytes are cut out; the string is inline exactly when it was or when the mode
  -- is eager and the new text fits.
  pub remove-Post :
      (index ch : ℕ)
      → is_char_boundary text index ≡ true
      → first_char (drop index text) ≡ some ch
      → index + len_utf8 ch ≤ length text
      → Returns
          (Post rest
            (splice index (index + len_utf8 ch) [] text)
            ch
            (shrunk_inline m (is_inline s) (splice index (index + len_utf8 ch) [] text)))
          (remove a m index (s, h))
  unfolding remove
  remove-Post index ch b first le =
      string_op_shrink-Post a rest (splice index (index + len_utf8 ch) [] text) m
        (Remove.shrink index) text ch
        (Remove.shrink-Shrinks index ch text (drop index text) (get_from_boundary text index b)
          first le)
        s h r
