-- ===== src/Smart/Methods/Panics.antt =====
-- The calls that `String` documents to panic: they do, with the string and the heap as they were.
use smartstring.Prelude.{
  ℕ, ◌<◌, ◌≡◌, ◌∙◌, refl, ap, ◌⊎◌, inl, inr, true, false, List, [], none, some, length, drop,
}
use smartstring.Run.{panicked}
use smartstring.Heap.{Heap, Allocator}
use smartstring.Utf8.{is_char_boundary}
use smartstring.Utf8.Laws.{get_from_boundary, get_from_off}
use smartstring.Ops.{RangeBounds, bounds_for}
use smartstring.Ops.Truncate
use smartstring.Ops.Remove
use smartstring.Ops.Insert
use smartstring.Ops.InsertStr
use smartstring.Ops.ReplaceRange
use smartstring.Ops.ReplaceRange.{in_text}
use smartstring.Smart.{SmartString, Mode}
use smartstring.Smart.Rep.{Rep}
use smartstring.Smart.Macros.Grow.{string_op_grow-panics}
use smartstring.Smart.Macros.Shrink.{string_op_shrink-Panics}
use smartstring.Smart.Methods.{truncate, remove, insert, insert_str, replace_range}

module _ (a : Allocator) (m : Mode) (rest : Heap) (text : List ℕ) (s : SmartString) (h : Heap)
    (r : Rep rest text s h) where
  -- For a shorter length that is off a character boundary, truncate panics with the string and the
  -- heap unchanged.
  pub truncate-panics :
      (new_len : ℕ)
      → new_len < length text
      → is_char_boundary text new_len ≡ false
      → truncate a m new_len (s, h) ≡ panicked (s, h)
  unfolding truncate
  truncate-panics new_len lt off =
      string_op_shrink-Panics a m (Truncate.shrink new_len) rest text
        (Truncate.shrink-Panics new_len text lt off) s h r

  -- For an index that is off a character boundary or at the end of the text, remove panics with
  -- the string and the heap unchanged.
  pub remove-panics :
      (index : ℕ)
      → (is_char_boundary text index ≡ false)
        ⊎ ((is_char_boundary text index ≡ true) × (drop index text ≡ []))
      → remove a m index (s, h) ≡ panicked (s, h)
  unfolding remove
  remove-panics index (inl off) =
      string_op_shrink-Panics a m (Remove.shrink index) rest text
        (Remove.shrink-Panics index text (inl (get_from_off text index off))) s h r
  remove-panics index (inr (b, end)) =
      string_op_shrink-Panics a m (Remove.shrink index) rest text
        (Remove.shrink-Panics index text (inr (get_from_boundary text index b ∙ ap some end))) s h r

  module _ (index : ℕ) (off : is_char_boundary text index ≡ false) where
    pub insert-panics : (ch : ℕ) → insert a index ch (s, h) ≡ panicked (s, h)
    unfolding insert
    insert-panics ch =
        string_op_grow-panics a (Insert.grow index ch) rest text
          (Insert.grow-Refuses index ch text off) s h r

    pub insert_str-panics : (string : List ℕ) → insert_str a index string (s, h) ≡ panicked (s, h)
    unfolding insert_str
    insert_str-panics string =
        string_op_grow-panics a (InsertStr.grow index string) rest text
          (InsertStr.grow-Refuses index string text off) s h r

  module _ (range : RangeBounds) (src : List ℕ) where
    pub replace_range_overflow :
        bounds_for range (length text) ≡ none → replace_range a m range src (s, h) ≡ panicked (s, h)
    unfolding replace_range
    replace_range_overflow over =
        rw
          (string_op_grow-panics a (ReplaceRange.grow range src) rest text
            (ReplaceRange.grow-Refuses_overflow range src text over) s h r)
          refl

    -- For bounds that are out of order, beyond the text or off a character boundary, replace_range
    -- panics with the string and the heap unchanged.
    pub replace_range-panics :
        (start end : ℕ)
        → bounds_for range (length text) ≡ some (start, end)
        → in_text text start end ≡ false
        → replace_range a m range src (s, h) ≡ panicked (s, h)
    unfolding replace_range
    replace_range-panics start end found off =
        rw
          (string_op_grow-panics a (ReplaceRange.grow range src) rest text
            (ReplaceRange.grow-Refuses range src text start end found off) s h r)
          refl
