-- ===== src/Tests/Methods.antt =====
-- The theorems about retain, split_off, drain, comparison and extend, and the string that takes
-- over a block, at concrete inputs.
use smartstring.Smart.Append.{smart_item}
use smartstring.Boxed.Grow.{request_limit}
use smartstring.Smart.Convert.Takeover.{
  from_raw_string, into_raw_string, from_raw_string-into_raw_string,
}
use smartstring.Smart.Convert.Laws.{Made}
use smartstring.Prelude.{
  length-replicate, inr, replicate, ℕ, ◌+◌, ◌<◌, ◌≡◌, ◌↔◌, refl, inl, true, not, List, [], ◌∷◌,
  ◌++◌, none, some, arith, ◌==◌, if◌then◌else◌, length, take, drop, All,
}
use smartstring.Run.{panicked, and_then}
use smartstring.Heap.Succeeds.{Returns, Succeeds}
use smartstring.Smart.Write.{index_mut_range, index_mut_range-Rep}
use smartstring.Smart.Serde.{
  serialize, deserialize, Visit, visits_str, as_str, deserialize-serialize,
}
use smartstring.Tests.Fixture.{
  small_global, small_allocator, no_blocks, hello, thirty, hello_inline, hello-Rep, hello_is_inline,
  hello_beside, thirty_box, thirty_heap, thirty-Rep, first_two, first_two-InText,
}
use Prim.Native.Nat.{Ordering}
use smartstring.Smart.Methods as Methods
use smartstring.Inline.Wf as InlineWf
use smartstring.Smart.Append.{from_owned}
use smartstring.Smart.Append.Laws.{
  from_owned-Holding, extend_owned-Holding, Holding, concat, one_more, none_left,
}
use smartstring.Smart.Append.{extend_owned}
use smartstring.Smart.Compare.{eq, cmp, partial_cmp, str_eq}
use smartstring.Smart.Compare.Laws.{cmp-eq, swap}
use smartstring.Drain.{drained, front, back}
use smartstring.Drain.Laws.{drained-Post, pops}
use smartstring.Smart.Methods.Retains.{retain-Post, retain-breaks}
use smartstring.Smart.Methods.SplitsOff.{split_off-Both}
use smartstring.Smart.Macros.Splits.{Both}
use smartstring.Smart.Methods.Laws.{shrunk_inline, grown_inline}
use smartstring.Smart.Macros.Grow.{Post}
use smartstring.Ops.Splice.{splice}
use smartstring.Utf8.Laws.{boundary_start, boundary_inside}
use smartstring.Smart.{SmartString, compact, lazy_compact, from_boxed, from_inline, is_inline}
use smartstring.Smart.Rep.{Rep, inlined}
use smartstring.Inline.{InlineString}
use smartstring.Utf8.{encode, encode_utf8, IsScalar}
use smartstring.Ops.Retain.{Predicate}
use smartstring.Ops.Retain.Scan.{scan, kept_first, finished, stopped, over}

abbrev hello_string : SmartString
hello_string = from_inline hello_inline

abbrev thirty_string : SmartString
thirty_string = from_boxed thirty_box

-- "hello" without its l, in a test that counts the calls.
abbrev not_l : Predicate ℕ
not_l ch calls = some (not (ch == 0x6c), calls + 1)

scalars : All IsScalar hello
scalars = (
  inl (omega arith),
  (inl (omega arith), (inl (omega arith), (inl (omega arith), (inl (omega arith), tt)))),
)

-- ASCII is its own encoding.
hello_encoded : encode hello ≡ hello
unfolding encode encode_utf8
hello_encoded = refl

hello_scanned : scan not_l hello 0 ≡ finished (0x68 ∷ 0x65 ∷ 0x6f ∷ []) 5
unfolding scan kept_first
hello_scanned = refl

retain-Post_example :
    Returns
      (Post no_blocks
        (encode (0x68 ∷ 0x65 ∷ 0x6f ∷ []))
        5
        (shrunk_inline compact (is_inline hello_string) (encode (0x68 ∷ 0x65 ∷ 0x6f ∷ []))))
      (Methods.retain small_allocator compact not_l 0 (hello_string, no_blocks))
retain-Post_example =
    retain-Post small_allocator compact not_l 0 no_blocks hello hello scalars hello_encoded
      hello_string no_blocks hello-Rep (0x68 ∷ 0x65 ∷ 0x6f ∷ []) 5 hello_scanned

-- An a, a letter of two bytes, and a b: the a is deleted, and the predicate panics at the b.
abbrev aeb : List ℕ
aeb = 0x61 ∷ 0xc3 ∷ 0xa9 ∷ 0x62 ∷ []

aeb_inline : InlineString
aeb_inline = (InlineWf.from_str-Inlined aeb (omega arith)).0

aeb-Rep : Rep no_blocks aeb (from_inline aeb_inline) no_blocks
unfolding aeb_inline
aeb-Rep = inlined aeb_inline refl ((InlineWf.from_str-Inlined aeb (omega arith)).2) refl

abbrev aeb_string : SmartString
aeb_string = from_inline aeb_inline

abbrev panics_at_b : Predicate (Unit {0})
panics_at_b ch e = if ch == 0x62 then none else some (not (ch == 0x61), e)

aeb_encoded : encode (0x61 ∷ 0xe9 ∷ 0x62 ∷ []) ≡ aeb
unfolding encode encode_utf8
aeb_encoded = refl

aeb_scanned : scan panics_at_b (0x61 ∷ 0xe9 ∷ 0x62 ∷ []) tt ≡ stopped (0xe9 ∷ [])
unfolding scan kept_first
aeb_scanned = refl

-- The bytes that are left are not valid UTF-8.
left_over : over (encode (0xe9 ∷ [])) aeb ≡ 0xc3 ∷ 0xa9 ∷ 0xa9 ∷ 0x62 ∷ []
unfolding encode encode_utf8
left_over = refl

retain-breaks_example :
    (s' : SmartString) × (Methods.retain small_allocator lazy_compact panics_at_b tt
        (aeb_string, no_blocks)
      ≡ panicked (s', no_blocks))
    × Rep no_blocks (over (encode (0xe9 ∷ [])) aeb) s' no_blocks
    × (is_inline s' ≡ is_inline aeb_string)
retain-breaks_example =
    retain-breaks small_allocator lazy_compact panics_at_b tt no_blocks aeb
      (0x61 ∷ 0xe9 ∷ 0x62 ∷ []) (inl (omega arith), (inl (omega arith), (inl (omega arith), tt)))
      aeb_encoded aeb_string no_blocks aeb-Rep (0xe9 ∷ []) aeb_scanned

-- The thirty bytes on the heap are cut at 24.
split_off-Both_example :
    Succeeds small_allocator
      (Both no_blocks
        (take 24 thirty)
        (drop 24 thirty)
        (shrunk_inline compact (is_inline thirty_string) (take 24 thirty)))
      (Methods.split_off small_allocator compact 24 (thirty_string, thirty_heap))
split_off-Both_example =
    split_off-Both small_allocator compact no_blocks thirty thirty_string thirty_heap thirty-Rep 24
      (boundary_inside thirty 24 (omega arith) (omega arith)) (omega arith)

he_encoded : encode (0x68 ∷ 0x65 ∷ []) ≡ take 2 (drop 0 hello)
unfolding encode encode_utf8
he_encoded = refl

drained-Post_example :
    Succeeds small_allocator
      (Post no_blocks (splice 0 2 [] hello) (pops (front ∷ back ∷ back ∷ []) (0x68 ∷ 0x65 ∷ [])) (
        shrunk_inline lazy_compact
          (grown_inline (is_inline hello_string) (splice 0 2 [] hello))
          (splice 0 2 [] hello)))
      (drained small_allocator lazy_compact first_two
        (front ∷ back ∷ back ∷ [])
        (hello_string, no_blocks))
drained-Post_example =
    drained-Post small_allocator lazy_compact no_blocks hello hello_string no_blocks hello-Rep
      first_two 0 2 (front ∷ back ∷ back ∷ []) (0x68 ∷ 0x65 ∷ []) first_two-InText
      (inl (omega arith), (inl (omega arith), tt)) he_encoded (omega arith)

-- The two forms beside each other.
cmp-eq_example :
    ((eq hello_string thirty_string ≡ true) ↔ (hello ≡ thirty))
    × ((cmp hello_string thirty_string ≡ Ordering.eq) ↔ (hello ≡ thirty))
    × (cmp thirty_string hello_string ≡ swap (cmp hello_string thirty_string))
    × (partial_cmp hello_string thirty_string ≡ some (cmp hello_string thirty_string))
    × (str_eq hello hello_string ≡ true)
cmp-eq_example = cmp-eq hello-Rep thirty-Rep

hello_place : is_inline hello_string ≡ grown_inline (is_inline hello_string) hello
hello_place = rw hello_is_inline refl

short_enough : length hello + length (concat (thirty ∷ [])) < request_limit
unfolding concat
short_enough = omega arith

-- "hello" takes the thirty bytes in.
extend_owned-Holding_example :
    Succeeds small_allocator
      (λ _ p. Holding no_blocks (is_inline hello_string) (hello ++ concat (thirty ∷ [])) p.0 p.1)
      (extend_owned small_allocator (thirty_string ∷ []) (hello_string, thirty_heap))
extend_owned-Holding_example =
    extend_owned-Holding small_allocator no_blocks thirty_heap (is_inline hello_string)
      (thirty_string ∷ []) (thirty ∷ []) hello hello_string thirty_heap
      (one_more none_left thirty-Rep) (hello_beside, hello_place) short_enough

from_raw_string-into_raw_string_example :
    Succeeds small_global.base (Made small_global.base no_blocks thirty) (
      and_then
        (into_raw_string small_global thirty_string thirty_heap)
        (from_raw_string small_global))
from_raw_string-into_raw_string_example =
    from_raw_string-into_raw_string small_global no_blocks thirty thirty_string thirty_heap
      thirty-Rep

short_text : length (concat (thirty ∷ [])) < request_limit
unfolding concat
short_text = omega arith

-- A string is collected from one that is moved in.
from_owned-Holding_example :
    Succeeds small_allocator
      (Holding no_blocks true (concat (thirty ∷ [])))
      (from_owned small_allocator (thirty_string ∷ []) thirty_heap)
from_owned-Holding_example =
    from_owned-Holding small_allocator no_blocks thirty_heap (thirty_string ∷ []) (thirty ∷ [])
      (one_more none_left thirty-Rep) short_text

-- Every byte becomes the same letter.
abbrev letters : List ℕ → List ℕ
letters part = replicate (length part) 0x62

index_mut_range-Rep_example :
    (s' : SmartString) × (index_mut_range letters hello_string 0 2 ≡ some s')
    × Rep no_blocks (splice 0 2 (letters (take 2 hello)) hello) s' no_blocks
    × (is_inline s' ≡ is_inline hello_string)
index_mut_range-Rep_example =
    index_mut_range-Rep letters 0 2 hello-Rep (omega arith) (boundary_start hello)
      (boundary_inside hello 2 (omega arith) (omega arith))
      (λ part. length-replicate (length part) 0x62)

-- A format whose output is the text, and whose deserializer hands out a `str`.
abbrev as_text : List ℕ → Visit (Unit {0})
as_text text = visits_str text

deserialize-serialize_example :
    Succeeds small_allocator
      (λ r h'. (t : SmartString) × (r ≡ inr t) × Made small_allocator thirty_heap thirty t h')
      (deserialize small_allocator
        (as_text (serialize (λ (t : List ℕ). t) thirty_string))
        thirty_heap)
deserialize-serialize_example =
    deserialize-serialize small_allocator (λ t. t) as_text (λ text. as_str) no_blocks thirty
      thirty_string thirty_heap thirty-Rep (omega arith)
