-- ===== src/Smart/Views.antt =====
-- The 24 bytes of a string, and the two structs that they are cast to.
pub mod Reads
pub mod Laws
use smartstring.Prelude.{usize_mod, ◌%◌, suc, ◌<◌, ◌≡◌, true, [], length}
use native.Mathlib.Nat.{ℕ_set}
use native.Mathlib.Bridge.{le_prop}
use smartstring.Bytes.{AreBytes, AreBytes-prop}
use smartstring.Boxed.{BoxedString}
use smartstring.Smart.{SmartString, StringCast, boxed, inline, from_boxed, from_inline, is_inline}
use smartstring.Smart.Cast.{InWords}

-- Memory of the size of `[u8; 24]`. An inline string owns nothing else.
abbrev pub IsMemory : SmartString → Type 0
IsMemory s = (length s.memory ≡ 24) × AreBytes s.memory × (is_inline s ≡ true → s.owned ≡ [])

-- Either struct, with fields that fit the machine: an even address, and an odd marker.
abbrev pub IsView : StringCast → Type 0
IsView (boxed b) = (b.ptr % 2 ≡ 0) × (b.ptr < usize_mod) × (b.cap < usize_mod) × (b.len < usize_mod)
IsView (inline i) =
    (i.marker.byte % 2 ≡ 1) × (i.marker.byte < 256) × (length i.bytes ≡ 23) × AreBytes i.bytes

abbrev pub Memory : Type 0
Memory = (s : SmartString) × IsMemory s

abbrev pub View : Type 0
View = (c : StringCast) × IsView c

-- The struct in the memory.
pub write : StringCast → SmartString
write (boxed b) = from_boxed b
write (inline i) = from_inline i

pub view-InWords : (b : BoxedString) → IsView (boxed b) → InWords b
view-InWords b (even, ptr_lt, cap_lt, len_lt) = record {
  even = even;
  ptr_lt = ptr_lt;
  cap_lt = cap_lt;
  len_lt = len_lt;
}

pub IsMemory-prop : (s : SmartString) → IsProp (IsMemory s)
IsMemory-prop s = hlevel (ℕ_set, AreBytes-prop s.memory)

pub IsView-prop : (c : StringCast) → IsProp (IsView c)
IsView-prop (boxed b) = hlevel (
  ℕ_set,
  le_prop {n = suc b.ptr} {m = usize_mod},
  le_prop {n = suc b.cap} {m = usize_mod},
  le_prop {n = suc b.len} {m = usize_mod},
)
IsView-prop (inline i) =
    hlevel (ℕ_set, le_prop {n = suc i.marker.byte} {m = 256}, AreBytes-prop i.bytes)
