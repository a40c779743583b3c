-- ===== src/Model.antt =====
-- test.rs: the actions of the property tests, performed on a `SmartString` and on the `String` that
-- is its control.
pub mod Texts
pub mod Utf8
pub mod Bounds
pub mod Answers
pub mod Ranges
pub mod Parts
pub mod Refines
pub mod Runs
pub mod Checks
pub mod Tested
use smartstring.Prelude.{
  replicate, ◌||◌, ◌==◌, ℕ, ◌+◌, ◌-◌, Bool, true, false, List, [], ◌∷◌, ◌++◌, Option, none, some,
  ltb, if◌then◌else◌, length, take, drop,
}
use smartstring.Run.{
  unwrap, gets, on_second, Run, M, done, panicked, aborted, undefined, diverged, pure, panic, ◌>>=◌,
  ◌>>◌, and_then,
}
use smartstring.Heap.{Heap, Allocator}
use smartstring.Utf8.{
  encode, encode_utf8, len_utf8, is_char_boundary, first_char, last_char, get_from,
}
use smartstring.Ops.{RangeBounds, bounds_for}
use smartstring.Ops.Splice.{splice}
use smartstring.Ops.ReplaceRange.{in_text}
use smartstring.Smart.{SmartString, Mode}
use smartstring.Smart.Macros.{Method}
use smartstring.Smart.Methods
use smartstring.Smart.Macros
use smartstring.Boxed.Strings.{drop_string, text_of}
use smartstring.Smart.Convert as Convert
use smartstring.Drain.{drained, front}
use smartstring.Drain.Chars as Chars
use smartstring.Model.Bounds as Bounds
use smartstring.Model.Bounds.{
  TestBounds, inclusive, to_inclusive, usize_max, should_panic, to_range, starts, ends,
}

-- The filter of `retain` is given by its characters, since it is only asked what it contains.
pub data Action : Type 0 where
  slice : TestBounds → Action
  push : ℕ → Action
  push_str : List ℕ → Action
  truncate : ℕ → Action
  pop : Action
  remove : ℕ → Action
  insert : ℕ → ℕ → Action
  insert_str : ℕ → List ℕ → Action
  split_off : ℕ → Action
  clear : Action
  into_string : Action
  retain : List ℕ → Action
  drain : TestBounds → Action
  replace_range : TestBounds → List ℕ → Action

-- What an action returns, for the tests to compare.
pub data Reply : Type 0 where
  nothing : Reply
  maybe_char : Option ℕ → Reply
  char : ℕ → Reply
  bytes : List ℕ → Reply

-- Inclusive bounds at the end of `usize`, with which `drain` and `replace_range` are not tried.
abbrev pub is_ignored : TestBounds → Bool
is_ignored (inclusive start end) = end == usize_max
is_ignored (to_inclusive end) = end == usize_max
is_ignored _ = false

-- `filter.contains(ch)`
pub contains : List ℕ → ℕ → Bool
contains [] ch = false
contains (c ∷ filter) ch = (c == ch) || contains filter ch

-- What the standard library documents of `String`: the new text and the reply, or a panic.
control_pop : Option ℕ → List ℕ → List ℕ × Reply
control_pop none text = (text, maybe_char none)
control_pop (some ch) text = (take (length text - len_utf8 ch) text, maybe_char (some ch))

control_remove : ℕ → Option ℕ → List ℕ → Option (List ℕ × Reply)
control_remove index none text = none
control_remove index (some ch) text = some (splice index (index + len_utf8 ch) [] text, char ch)

control_slice : TestBounds → List ℕ → Option (List ℕ × Reply)
control_slice b text =
    if should_panic b text then none else some (text, bytes (Bounds.between b text))

control_drain : TestBounds → List ℕ → Option (List ℕ × Reply)
control_drain b text =
    if is_ignored b
    then some (text, nothing)
    else (if should_panic b text
        then none
        else some (splice (starts b) (ends b text) [] text, bytes (Bounds.between b text)))

control_range : TestBounds → List ℕ → List ℕ → Option (List ℕ × Reply)
control_range b src text =
    if is_ignored b
    then some (text, nothing)
    else (if should_panic b text
        then none
        else some (splice (starts b) (ends b text) src text, nothing))

pub control_retain : List ℕ → List ℕ → List ℕ
control_retain filter [] = []
control_retain filter (ch ∷ chs) =
    let rest = control_retain filter chs in if contains filter ch then ch ∷ rest else rest

pub control : Action → List ℕ → Option (List ℕ × Reply)
unfolding control_pop control_remove control_slice control_drain control_range
control (slice b) text = control_slice b text
control (push ch) text = some (text ++ encode_utf8 ch, nothing)
control (push_str string) text = some (text ++ string, nothing)
control (truncate n) text =
    if ltb n (length text)
    then (if is_char_boundary text n then some (take n text, nothing) else none)
    else some (text, nothing)
control pop text = some (control_pop (last_char text) text)
control (remove index) text =
    if is_char_boundary text index
    then control_remove index (first_char (drop index text)) text
    else none
control (insert index ch) text =
    if is_char_boundary text index
    then some (splice index index (encode_utf8 ch) text, nothing)
    else none
control (insert_str index string) text =
    if is_char_boundary text index then some (splice index index string text, nothing) else none
control clear text = some ([], nothing)
control (split_off index) text =
    if is_char_boundary text index then some (take index text, bytes (drop index text)) else none
control into_string text = some (text, bytes text)
control (retain filter) text = some (encode (control_retain filter (Chars.collect text)), nothing)
control (drain b) text = control_drain b text
control (replace_range b src) text = control_range b src text

abbrev pub reply : {A : Type 0} → (A → Reply) → Method A → Method Reply
reply f method = do x ← method; pure (f x)

-- The characters that an iterator answered, up to its end, as a text.
pub collected : List (Option ℕ) → List ℕ
collected [] = []
collected (none ∷ items) = []
collected (some ch ∷ items) = encode_utf8 ch ++ collected items

module _ (a : Allocator) (m : Mode) where
  -- The new string is compared, and dropped.
  perform_split_off : ℕ → Method Reply
  perform_split_off index = do
    tail ← Methods.split_off a m index
    on_second (Macros.drop a tail)
    pure (bytes (Convert.deref tail))

  perform_into_string : Method Reply
  perform_into_string = do
    (λ (s, h).
        on_second
          (do
            c ← Convert.clone a s
            string ← Convert.into_string a c
            drop_string a string
            pure (bytes (text_of string)))
          (s, h))

  perform_retain : List ℕ → Method (Unit {0})
  perform_retain filter = Methods.retain a m (λ ch e. some (contains filter ch, e)) tt

  -- The iterator is fused: once it has answered `none` it goes on to do so, and there are as many
  -- calls as the text could have characters, and one more.
  perform_drain : RangeBounds → Method Reply
  perform_drain range = do
    n ← gets (λ p. length (Convert.deref p.0))
    items ← drained a m range (replicate (n + 1) front)
    pure (bytes (collected items))

  -- `Action::perform`
  pub perform : Action → Method Reply
  unfolding perform_split_off perform_into_string perform_retain perform_drain
  perform (slice b) = do found ← gets (λ p. Bounds.index b p.0); reply bytes (unwrap found)
  perform (push ch) = reply (λ _. nothing) (Methods.push a ch)
  perform (push_str string) = reply (λ _. nothing) (Methods.push_str a string)
  perform (truncate n) = reply (λ _. nothing) (Methods.truncate a m n)
  perform pop = reply maybe_char (Methods.pop a m)
  perform (remove index) = reply char (Methods.remove a m index)
  perform (insert index ch) = reply (λ _. nothing) (Methods.insert a index ch)
  perform (insert_str index string) = reply (λ _. nothing) (Methods.insert_str a index string)
  perform clear = reply (λ _. nothing) (Methods.clear a)
  perform (split_off index) = perform_split_off index
  perform into_string = perform_into_string
  perform (retain filter) = reply (λ _. nothing) (perform_retain filter)
  perform (drain b) = if is_ignored b then pure nothing else perform_drain (to_range b)
  perform (replace_range b src) =
      if is_ignored b
      then pure nothing
      else reply (λ _. nothing) (Methods.replace_range a m (to_range b) src)
