-- ===== src/Tests/Parts.antt =====
-- The theorems about conversions, casts, the boxed string and the marker at concrete inputs.
use smartstring.Prelude.{ℕ, ◌≡◌, some, arith, max, if◌then◌else◌}
use smartstring.Boxed.Strings.{IsString}
use smartstring.Heap.Succeeds.{Succeeds}
use smartstring.Inline.{max_inline}
use smartstring.Inline as Inline
use smartstring.Inline.Wf.{new-Inlined}
use smartstring.Boxed
use smartstring.Boxed.{
  BoxedString, StdString, to_string, minimal_capacity, grown_capacity, doublings,
}
use smartstring.Boxed.Blocks.{Stored}
use smartstring.Boxed.Texts.{ensure_capacity-Stored}
use smartstring.Boxed.Grow.{Grown, ensure-Grown}
use smartstring.Smart.{SmartString, StringCast, cast, from_boxed, from_inline, is_inline}
use smartstring.Smart.Cast.{cast-from_inline}
use smartstring.Smart.Rep.{Rep}
use smartstring.Smart.Convert.{capacity, from_string, into_string, clone}
use smartstring.Smart.Convert.Laws.{Made, from_string-Made, into_string-IsString, clone-Rep}
use smartstring.Tests.Fixture.{
  small_allocator, no_blocks, thirty, thirty_box, thirty_heap, thirty-Stored, thirty-Rep,
}

abbrev thirty_string : SmartString
thirty_string = from_boxed thirty_box

from_string-Made_example :
    Succeeds small_allocator
      (Made small_allocator no_blocks thirty)
      (from_string small_allocator (to_string thirty) no_blocks)
from_string-Made_example =
    from_string-Made small_allocator no_blocks (to_string thirty) (omega arith) (omega arith)

into_string-IsString_example :
    Succeeds small_allocator
      (λ t h'. IsString no_blocks thirty t h' × (t.capacity ≡ 30))
      (into_string small_allocator thirty_string thirty_heap)
into_string-IsString_example =
    into_string-IsString small_allocator no_blocks thirty thirty_string thirty_heap thirty-Rep

clone-Rep_example :
    Succeeds small_allocator
      (λ c h'.
        Rep thirty_heap thirty c h'
        × (is_inline c ≡ is_inline thirty_string)
        × (capacity c ≡ (
            if is_inline thirty_string
            then max_inline
            else max (capacity thirty_string) minimal_capacity)))
      (clone small_allocator thirty_string thirty_heap)
clone-Rep_example = clone-Rep small_allocator no_blocks thirty thirty_string thirty_heap thirty-Rep

cast-from_inline_example : cast (from_inline Inline.new) ≡ StringCast.inline Inline.new
cast-from_inline_example = cast-from_inline Inline.new new-Inlined.wf

ensure-Grown_example :
    (found : ℕ) × (grown_capacity doublings 46 1000 ≡ some found) × Grown 46 1000 found
ensure-Grown_example = ensure-Grown 46 1000 (omega arith) (omega arith)

ensure_capacity-Stored_example :
    Succeeds small_allocator
      (λ b' h'. Stored no_blocks (Boxed.deref thirty_box) b' h' × Grown 46 1000 b'.cap)
      (Boxed.ensure_capacity small_allocator thirty_box 1000 thirty_heap)
ensure_capacity-Stored_example =
    ensure_capacity-Stored small_allocator no_blocks thirty_box thirty_heap 1000 thirty-Stored.wf
      thirty-Stored.owned (omega arith)
