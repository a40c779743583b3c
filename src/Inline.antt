-- ===== src/Inline.antt =====
-- inline.rs and the constants of config.rs: the inline string.
pub mod Wf
use smartstring.Prelude.{
  ℕ, ◌-◌, ◌%◌, ◌≤◌, ◌<◌, ◌≡◌, ◌∙◌, refl, ap, List, [], ◌++◌, Option, some, arith, length, take,
  drop, replicate, length-replicate, length-take_le, take-append_eq,
}
use mathlib.Core.Option
use smartstring.Slice.{copy_from_slice}
use smartstring.Marker.{Marker}
use smartstring.Marker
use smartstring.Generic.{GenericString}

-- `size_of::<String>()` on a 64-bit target
abbrev size_of_string : ℕ
size_of_string = 24

abbrev pub max_inline : ℕ
max_inline = size_of_string - 1

pub record InlineString : Type 0 where
  pub marker : Marker
  pub bytes : List ℕ

pub new : InlineString
new = record { marker = Marker.empty; bytes = replicate max_inline 0 }

-- `InlineString::len`
pub size : InlineString → ℕ
size s = Marker.size_of s.marker

-- `impl Deref`
pub deref : InlineString → List ℕ
unfolding size
deref s = take (size s) s.bytes

-- `size as u8`
pub set_size : InlineString → ℕ → InlineString
set_size s n = record s { marker = Marker.set_size s.marker (n % 256) }

-- `impl From<&str>`; `none` is the panic of the slice.
pub from_str : List ℕ → Option InlineString
from_str string =
    let n = length string in
    Option.map (λ b. record { marker = Marker.new_inline (n % 256); bytes = b })
      (copy_from_slice 0 n string (replicate max_inline 0))
