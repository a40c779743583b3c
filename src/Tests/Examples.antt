-- ===== src/Tests/Examples.antt =====
-- The theorems at concrete inputs: "hello" inline, and thirty bytes on the heap.
use smartstring.Prelude.{◌≡◌, true, false, [], ◌++◌, arith, take}
use smartstring.Run.{done}
use smartstring.Heap.Succeeds.{Returns, Succeeds}
use smartstring.Utf8.Laws.{boundary_start, boundary_inside}
use smartstring.Ops.Splice.{splice}
use smartstring.Ops.PushStr
use smartstring.Ops.Truncate
use smartstring.Smart.{SmartString, compact, lazy_compact, from_boxed, from_inline, is_inline}
use smartstring.Smart.Convert.{capacity}
use smartstring.Smart.Macros.{
  string_op_grow, string_op_shrink, really_try_demote, drop as drop_string,
}
use smartstring.Smart.Macros.Grow.{Post, string_op_grow-Post}
use smartstring.Smart.Macros.Shrink.{string_op_shrink-Post, really_try_demote-Post, drop-Rep}
use smartstring.Smart.Methods
use smartstring.Smart.Methods.Laws.{
  push_str-Post, replace_range-Post, shrink_to_fit-Post, clear-Post, grown_inline, shrunk_inline,
}
use smartstring.Smart.Methods.Inserts.{insert_str-Post}
use smartstring.Tests.Fixture.{
  small_allocator, no_blocks, hello, thirty, hello_inline, hello-Rep, thirty_box, thirty_heap,
  thirty-Rep, first_two, first_two-InText,
}

abbrev hello_string : SmartString
hello_string = from_inline hello_inline

abbrev thirty_string : SmartString
thirty_string = from_boxed thirty_box

string_op_grow-Post_example :
    Succeeds small_allocator
      (Post no_blocks
        (hello ++ thirty)
        tt
        (grown_inline (is_inline hello_string) (hello ++ thirty)))
      (string_op_grow small_allocator (PushStr.grow thirty) (hello_string, no_blocks))
string_op_grow-Post_example =
    string_op_grow-Post small_allocator (PushStr.grow thirty) no_blocks hello (hello ++ thirty) tt
      (PushStr.grow-Grows thirty hello (omega arith)) (omega arith) hello_string no_blocks hello-Rep

string_op_shrink-Post_example :
    Returns
      (Post no_blocks
        (take 5 thirty)
        tt
        (shrunk_inline compact (is_inline thirty_string) (take 5 thirty)))
      (string_op_shrink small_allocator compact (Truncate.shrink 5) (thirty_string, thirty_heap))
string_op_shrink-Post_example =
    string_op_shrink-Post small_allocator no_blocks (take 5 thirty) compact (Truncate.shrink 5)
      thirty tt
      (Truncate.shrink-Shrinks 5 thirty (omega arith)
        (boundary_inside thirty 5 (omega arith) (omega arith)))
      thirty_string thirty_heap thirty-Rep

really_try_demote-Post_example :
    Returns
      (Post no_blocks thirty false false)
      (really_try_demote small_allocator (thirty_string, thirty_heap))
really_try_demote-Post_example =
    really_try_demote-Post small_allocator no_blocks thirty thirty_string thirty_heap thirty-Rep

drop-Rep_example : drop_string small_allocator thirty_string thirty_heap ≡ done tt no_blocks
drop-Rep_example = drop-Rep small_allocator no_blocks thirty thirty_string thirty_heap thirty-Rep

push_str-Post_example :
    Succeeds small_allocator
      (Post no_blocks
        (hello ++ thirty)
        tt
        (grown_inline (is_inline hello_string) (hello ++ thirty)))
      (Methods.push_str small_allocator thirty (hello_string, no_blocks))
push_str-Post_example =
    push_str-Post small_allocator no_blocks hello hello_string no_blocks hello-Rep thirty
      (omega arith)

replace_range-Post_example :
    Succeeds small_allocator
      (Post no_blocks (splice 0 2 thirty hello) tt (
        shrunk_inline lazy_compact
          (grown_inline (is_inline hello_string) (splice 0 2 thirty hello))
          (splice 0 2 thirty hello)))
      (Methods.replace_range small_allocator lazy_compact first_two thirty
        (hello_string, no_blocks))
replace_range-Post_example =
    replace_range-Post small_allocator no_blocks hello hello_string no_blocks hello-Rep lazy_compact
      first_two thirty 0 2 first_two-InText (omega arith)

shrink_to_fit-Post_example :
    Succeeds small_allocator
      (λ x p. Post no_blocks thirty tt false x p × (capacity p.0 ≡ 30))
      (Methods.shrink_to_fit small_allocator (thirty_string, thirty_heap))
shrink_to_fit-Post_example =
    shrink_to_fit-Post small_allocator no_blocks thirty thirty_string thirty_heap thirty-Rep

clear-Post_example :
    Returns (Post no_blocks [] tt true) (Methods.clear small_allocator (thirty_string, thirty_heap))
clear-Post_example =
    clear-Post small_allocator no_blocks thirty thirty_string thirty_heap thirty-Rep

insert_str-Post_example :
    Succeeds small_allocator
      (Post no_blocks
        (splice 0 0 thirty hello)
        tt
        (grown_inline (is_inline hello_string) (splice 0 0 thirty hello)))
      (Methods.insert_str small_allocator 0 thirty (hello_string, no_blocks))
insert_str-Post_example =
    insert_str-Post small_allocator no_blocks hello hello_string no_blocks hello-Rep 0
      (boundary_start hello) thirty (omega arith)
