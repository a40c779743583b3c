-- ===== src/Smart.antt =====
-- lib.rs, casts.rs and config.rs: the string of 24 bytes that is an inline string or a boxed one.
pub mod Cast
pub mod Views
pub mod BigEndian
pub mod Rep
pub mod Macros
pub mod Convert
pub mod Methods
pub mod Append
pub mod Compare
pub mod Index
pub mod Write
pub mod Serde
pub mod Proptest
use smartstring.Prelude.{
  ℕ, ◌+◌, ◌<◌, Bool, true, false, List, [], ◌∷◌, ◌++◌, Option, none, some, ltb, leb, ◌==◌,
  if◌then◌else◌, length, get_or, take, drop as list_drop,
}
use smartstring.Run.{
  Run, M, done, panicked, aborted, undefined, diverged, pure, ◌>>=◌, ◌>>◌, and_then, map_state,
}
use smartstring.Bytes.{to_le, from_le}
use smartstring.Marker
use smartstring.Marker.{Discriminant}
use smartstring.Inline
use smartstring.Inline.{InlineString, max_inline}
use smartstring.Inline.Wf
use smartstring.Heap.{Heap, Allocator}
use smartstring.Boxed
use smartstring.Boxed.{BoxedString}
use smartstring.Boxed.Wf as BoxedWf
use smartstring.Ops.{GrowOp, ShrinkOp}

-- `memory` is the field `data`. The contents of the block that a boxed string points to, and owns,
-- are kept beside it.
pub record SmartString : Type 0 where
  pub memory : List ℕ
  pub owned : List ℕ

-- `Compact` and `LazyCompact`
pub data Mode : Type 0 where
  compact lazy_compact : Mode

-- `Mode::DEALLOC`
pub dealloc : Mode → Bool
dealloc compact = true
dealloc lazy_compact = false

pub data StringCast : Type 0 where
  boxed : BoxedString → StringCast
  inline : InlineString → StringCast

-- The memory read as either struct: `repr(C)`, the marker and the pointer first.
pub as_boxed : SmartString → BoxedString
as_boxed s = record {
  ptr = from_le (take 8 s.memory);
  cap = from_le (take 8 (list_drop 8 s.memory));
  len = from_le (take 8 (list_drop 16 s.memory));
  buffer = s.owned;
}

pub as_inline : SmartString → InlineString
as_inline s = record {
  marker = record { byte = get_or s.memory 0 0 };
  bytes = list_drop 1 s.memory;
}

pub from_boxed : BoxedString → SmartString
from_boxed b = record {
  memory = to_le 8 b.ptr ++ (to_le 8 b.cap ++ to_le 8 b.len);
  owned = b.buffer;
}

pub from_inline : InlineString → SmartString
from_inline i = record { memory = i.marker.byte ∷ i.bytes; owned = [] }

pub new : SmartString
new = from_inline Inline.new

pub discriminant : SmartString → Discriminant
discriminant s = Marker.from_bit (Boxed.check_alignment (as_boxed s))

cast_as : Discriminant → SmartString → StringCast
cast_as Discriminant.inline s = inline (as_inline s)
cast_as Discriminant.boxed s = boxed (as_boxed s)

-- `cast`, `cast_mut` and `cast_into`
pub cast : SmartString → StringCast
unfolding cast_as
cast s = cast_as (discriminant s) s

pub is_inline : SmartString → Bool
is_inline s = elim (discriminant s) [ Discriminant.inline ↦ true | Discriminant.boxed ↦ false ]
