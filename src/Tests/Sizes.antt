-- ===== src/Tests/Sizes.antt =====
-- The theorems about sizes, iterators, views and comparisons at concrete inputs.
use smartstring.Prelude.{
  none, ◌↔◌, length-append, ℕ, ◌+◌, ◌^◌, ◌≡◌, ◌⊎◌, refl, ap, [], ◌∷◌, ◌++◌, some, arith, List,
  length, leb, ◌&&◌,
}
use smartstring.Run.{Run, M, done, panicked, aborted, undefined, diverged, and_then, map_state}
use smartstring.Heap.{Heap, Allocator, update}
use smartstring.Heap.Succeeds
use smartstring.Heap.Succeeds.{Returns, Succeeds}
use smartstring.Heap.Settles.{Settles}
use smartstring.Utf8.{encode}
use smartstring.Utf8.Boundary.{length-encode_cons, encode_nil}
use smartstring.Utf8.Laws.{len_utf8_le}
use smartstring.Inline.{max_inline}
use smartstring.Boxed.{grown_capacity, doublings}
use smartstring.Boxed.Hangs.{Hangs, doublings-decide, power-Hangs}
use smartstring.Boxed.Strings.{
  RawString, text_of, IsString, drop_string, copy_string, bytes_layout, within, drop_string_lem,
  copy_string-IsString,
}
use smartstring.Ops.PushStr
use smartstring.Smart.{from_boxed, from_inline, is_inline}
use smartstring.Smart.Macros.{string_op_grow}
use smartstring.Smart.Macros.Grow.{Post, Kept, string_op_grow-Kept}
use smartstring.Smart.Macros.Sizes.{string_op_grow-Settles}
use smartstring.Smart.Methods
use smartstring.Smart.Methods.Stays.{from_iter-Kept}
use smartstring.Smart.Append.Impls.{add_to_string, add_to_string-IsString, Pushes}
use smartstring.Model.Checks.Equal.{test_eq, test_eq-frees}
use smartstring.Smart.BigEndian.{cast, write, cast-write}
use smartstring.Smart.{StringCast}
use smartstring.Smart.Compare.Values.{value_of, compare, value_of_texts}
use smartstring.Smart.Compare.{bytes_cmp}
use smartstring.Heap.Unwinds.{Unwinds}
use smartstring.Smart.Methods.Iterators.{collect, gives, collect-Unwinds}
use smartstring.Tests.Fixture.{
  small_allocator, no_blocks, hello, thirty, hello_inline, hello-Rep, hello_is_inline, hello_at,
  thirty_box, thirty_heap, thirty-Rep, e_acute,
}

string_op_grow-Kept_example :
    Returns
      (Kept no_blocks (hello ++ e_acute) tt)
      (string_op_grow small_allocator (PushStr.grow e_acute) (from_inline hello_inline, no_blocks))
string_op_grow-Kept_example =
    string_op_grow-Kept small_allocator (PushStr.grow e_acute) hello (hello ++ e_acute) tt
      (PushStr.grow-Grows e_acute hello (omega arith)) (omega arith) (from_inline hello_inline)
      no_blocks hello-Rep hello_is_inline

-- The euro sign and a letter.
abbrev euro_a : List ℕ
euro_a = 0x20ac ∷ 0x61 ∷ []

from_iter-Kept_example :
    Returns
      (λ s h'. Kept thirty_heap (encode euro_a) tt tt (s, h'))
      (Methods.from_iter small_allocator euro_a thirty_heap)
from_iter-Kept_example = from_iter-Kept small_allocator thirty_heap euro_a (
    omega (
      arith,
      length-encode_cons 0x20ac (0x61 ∷ []),
      length-encode_cons 0x61 [],
      ap length encode_nil,
      len_utf8_le 0x20ac,
      len_utf8_le 0x61,
    ))

collect-Unwinds_example :
    Unwinds small_allocator
      (λ h. h ≡ thirty_heap)
      (collect small_allocator (gives euro_a (none ∷ [])) thirty_heap)
collect-Unwinds_example = collect-Unwinds small_allocator thirty_heap euro_a [] (
    omega (
      arith,
      length-encode_cons 0x20ac (0x61 ∷ []),
      length-encode_cons 0x61 [],
      ap length encode_nil,
      len_utf8_le 0x20ac,
      len_utf8_le 0x61,
    ))

string_op_grow-Settles_example :
    Settles small_allocator
      (from_boxed thirty_box, thirty_heap)
      (Post no_blocks
        (thirty ++ thirty)
        tt
        (is_inline (from_boxed thirty_box) && leb (length (thirty ++ thirty)) max_inline))
      (string_op_grow small_allocator (PushStr.grow thirty) (from_boxed thirty_box, thirty_heap))
string_op_grow-Settles_example =
    string_op_grow-Settles small_allocator (PushStr.grow thirty) no_blocks thirty (thirty ++ thirty)
      tt (PushStr.grow-Grows thirty thirty (omega arith)) (from_boxed thirty_box) thirty_heap
      thirty-Rep

doublings-decide_example :
    ((found : ℕ) × (grown_capacity doublings 46 1000 ≡ some found)) ⊎ Hangs 46 1000
doublings-decide_example = doublings-decide 46 1000 (omega arith) (omega arith)

power-Hangs_example : Hangs (2 ^ 6) (2 ^ 63 + 1)
power-Hangs_example = power-Hangs 57 6 (2 ^ 63 + 1) (omega arith) (omega arith)

-- A `push_str` that frees the old block and copies both texts into a new one.
put : RawString → Run Heap RawString → Run (RawString × Heap) (Unit {0})
put s (done t h) = done tt (t, h)
put s (panicked h) = panicked (s, h)
put s (aborted q) = aborted q
put s undefined = undefined
put s diverged = diverged

push_by_copy : Allocator → List ℕ → M (RawString × Heap) (Unit {0})
unfolding put
push_by_copy a more (s, h) =
    and_then (map_state (λ h'. (s, h')) (drop_string a s h))
      λ _ p. put s (copy_string a (text_of s ++ more) p.1)

put-Succeeds :
    (a : Allocator) {P : RawString → Heap → Type 0} (s : RawString) {r : Run Heap RawString}
    → Succeeds a P r
    → Succeeds a (λ _ p. P p.0 p.1) (put s r)
unfolding put
put-Succeeds a s (Succeeds.returns p) = Succeeds.returns p
put-Succeeds a s (Succeeds.gives_up e) = Succeeds.gives_up e

push_by_copy-Pushes : (a : Allocator) → Pushes a (push_by_copy a)
unfolding push_by_copy
push_by_copy-Pushes a rest text more s h w lim =
    rw (drop_string_lem a rest s h w.owned, w.text_eq)
      (put-Succeeds a s (
        Succeeds.mono
          (copy_string-IsString a (text ++ more) rest (omega (arith, length-append text more)))
          λ t h' made. made.0))

abbrev hello_raw : RawString
hello_raw = record { ptr = 4096; capacity = 5; len = 5; bytes = hello }

abbrev hello_raw_heap : Heap
hello_raw_heap = update no_blocks 4096 (some (bytes_layout 5))

hello_raw-IsString : IsString no_blocks hello hello_raw hello_raw_heap
hello_raw-IsString = record {
  fits = omega arith;
  full = refl;
  capacity_lt = omega arith;
  text_eq = refl;
  owned = within (omega arith) (record { live = refl; unused = refl });
}

add_to_string-IsString_example : Succeeds small_allocator (IsString no_blocks (hello ++ hello)) (
    add_to_string small_allocator
      (push_by_copy small_allocator)
      hello_raw
      (from_inline hello_inline)
      hello_raw_heap)
add_to_string-IsString_example =
    add_to_string-IsString small_allocator (push_by_copy small_allocator)
      (push_by_copy-Pushes small_allocator) no_blocks hello_raw_heap hello hello hello_raw
      (from_inline hello_inline) hello_raw_heap hello_raw-IsString (hello_at hello_raw_heap)
      (omega arith)

-- Two texts that are not equal, one of them boxed.
test_eq-frees_example :
    Succeeds small_allocator (λ _ h. h ≡ no_blocks) (test_eq small_allocator hello thirty no_blocks)
test_eq-frees_example =
    test_eq-frees small_allocator no_blocks hello thirty (omega arith) (omega arith)

cast-write_example : cast (write (StringCast.boxed thirty_box)) ≡ StringCast.boxed thirty_box
cast-write_example =
    cast-write (StringCast.boxed thirty_box) (refl, omega arith, omega arith, omega arith)

value_of_texts_example :
    ((value_of (from_inline hello_inline) ≡ value_of (from_boxed thirty_box)) ↔ (hello ≡ thirty))
    × (compare (value_of (from_inline hello_inline)) (value_of (from_boxed thirty_box))
        ≡ bytes_cmp hello thirty)
value_of_texts_example = value_of_texts hello-Rep thirty-Rep
