-- ===== src/Smart/Convert/Sources.antt =====
-- The other conversions to a string: from `&String`, `Box<str>` and `Cow<str>`.
use smartstring.Smart.Convert.Laws.{from_str-Made, from_string-Made, Made}
use smartstring.Inline.{max_inline}
use smartstring.Smart.{from_inline, from_boxed, SmartString}
use smartstring.Boxed.{to_string, StdString}
use smartstring.Prelude.{
  isize_max, ℕ, ◌≤◌, ◌<◌, inl, inr, List, arith, ltb, if◌then◌else◌, Bool-cases, length,
}
use smartstring.Run.{M, pure, unwrap, ◌>>=◌}
use smartstring.Heap.{Heap, Allocator}
use smartstring.Heap.Succeeds.{Succeeds}
use smartstring.Boxed
use smartstring.Inline
use smartstring.Smart.Convert.{from_str, from_string}

-- `Cow<str>`
pub data Cow : Type 0 where
  borrowed : List ℕ → Cow
  owned : StdString → Cow

abbrev cow_text : Cow → List ℕ
cow_text (borrowed text) = text
cow_text (owned string) = string.text

-- `String::from(cow)`: an owned string is taken as it is, with its capacity.
abbrev cow_string : Cow → StdString
cow_string (borrowed text) = to_string text
cow_string (owned string) = string

module _ (a : Allocator) where
  -- `impl From<&String>`: the clone has no capacity to spare.
  pub from_string_ref : StdString → M Heap SmartString
  from_string_ref string =
      if ltb max_inline (length string.text)
      then (do b ← Boxed.from_string a (to_string string.text); pure (from_boxed b))
      else (do i ← unwrap (Inline.from_str string.text); pure (from_inline i))

  -- `impl From<Box<str>>`
  pub from_box : List ℕ → M Heap SmartString
  from_box string =
      if ltb max_inline (length string) then from_string a (to_string string) else from_str a string

  -- `impl From<Cow<str>>`
  pub from_cow : Cow → M Heap SmartString
  from_cow string =
      if ltb max_inline (length (cow_text string))
      then from_string a (cow_string string)
      else from_str a (cow_text string)

module _ (a : Allocator) (rest : Heap) where
  pub from_string_ref-Made :
      (string : StdString)
      → length string.text < isize_max
      → Succeeds a (Made a rest string.text) (from_string_ref a string rest)
  unfolding from_string_ref from_str
  from_string_ref-Made string lim = from_str-Made a rest string.text lim

  from_box-Made :
      (text : List ℕ)
      → length text < isize_max
      → Succeeds a (Made a rest text) (from_box a text rest)
  unfolding from_box
  from_box-Made text lim = elim (Bool-cases (ltb max_inline (length text))) [
    | inl more ↦ rw more (from_string-Made a rest (to_string text) (omega arith) lim)
    | inr fits ↦ rw fits (from_str-Made a rest text lim)
  ]

  from_cow-Made :
      (cow : Cow)
      → length (cow_text cow) ≤ (cow_string cow).capacity
      → (cow_string cow).capacity < isize_max
      → Succeeds a (Made a rest (cow_text cow)) (from_cow a cow rest)
  unfolding from_cow
  from_cow-Made (borrowed text) fits lim = elim (Bool-cases (ltb max_inline (length text))) [
    | inl more ↦ rw more (from_string-Made a rest (to_string text) (omega arith) lim)
    | inr small ↦ rw small (from_str-Made a rest text lim)
  ]
  from_cow-Made (owned string) fits lim = elim (Bool-cases (ltb max_inline (length string.text))) [
    | inl more ↦ rw more (from_string-Made a rest string fits lim)
    | inr small ↦ rw small (from_str-Made a rest string.text (omega (arith, fits, lim)))
  ]
