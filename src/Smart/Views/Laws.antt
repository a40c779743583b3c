-- ===== src/Smart/Views/Laws.antt =====
-- From the structs to the memory, and the cast as a map between the two.
use smartstring.Prelude.{◌≡◌, refl, ◌++◌, arith, length-append}
use std.Equiv.{IsEquiv, iso_to_equiv}
use std.HLevel.{Σ_prop_path}
use smartstring.Bytes.{AreBytes-append, to_le-AreBytes, length-to_le, to_le}
use smartstring.Boxed.{BoxedString}
use smartstring.Smart.{StringCast, boxed, inline, from_boxed, from_inline, cast}
use smartstring.Smart.Cast.{cast_words, is_inline_words, cast_marked}
use smartstring.Smart.Views.{
  IsMemory, IsView, Memory, View, view-InWords, IsMemory-prop, IsView-prop, write,
}
use smartstring.Smart.Views.Reads.{cast-IsView}

from_boxed-IsMemory : (b : BoxedString) → IsView (boxed b) → IsMemory (from_boxed b)
unfolding from_boxed
from_boxed-IsMemory b view = (
  omega (
    arith,
    length-append (to_le 8 b.ptr) (to_le 8 b.cap ++ to_le 8 b.len),
    length-append (to_le 8 b.cap) (to_le 8 b.len),
    length-to_le 8 b.ptr,
    length-to_le 8 b.cap,
    length-to_le 8 b.len,
  ),
  AreBytes-append (to_le 8 b.ptr) (to_le 8 b.cap ++ to_le 8 b.len) (to_le-AreBytes 8 b.ptr) (
      AreBytes-append (to_le 8 b.cap) (to_le 8 b.len) (to_le-AreBytes 8 b.cap)
        (to_le-AreBytes 8 b.len)),
  λ here. cc (here, is_inline_words b (view-InWords b view)),
)

write-IsMemory : (c : StringCast) → IsView c → IsMemory (write c) × (cast (write c) ≡ c)
unfolding write
write-IsMemory (boxed b) view = (from_boxed-IsMemory b view, cast_words b (view-InWords b view))
write-IsMemory (inline i) view = (
  unfold from_inline in (omega (arith, view.2), (view.1, view.3), λ here. refl),
  cast_marked i view.0,
)

-- The memory as the crate reads it.
pub read : Memory → View
read (s, w) = (cast s, (cast-IsView s w).0)

-- Between 24 bytes of memory, with no block beside an inline string's, and the structs with fields
-- that fit the machine, an even address for a boxed string and an odd marker for an inline one,
-- the cast is an equivalence: each struct is read from exactly one memory.
pub read-IsEquiv : IsEquiv read
unfolding read
read-IsEquiv =
    (iso_to_equiv {A = Memory} {B = View} record {
      fun = read;
      inv = λ (c, view). (write c, (write-IsMemory c view).0);
      rinv = λ (c, view). Σ_prop_path IsView-prop ((write-IsMemory c view).1);
      linv = λ (s, w). Σ_prop_path IsMemory-prop ((cast-IsView s w).1);
    }).1
