-- ===== src/Utf8.antt =====
-- UTF-8 as the standard library's `char` and `str` read and write it. A `char` is its scalar value
-- and a `str` is the list of its bytes.
pub mod Laws
pub mod Boundary
pub mod Edges
use smartstring.Prelude.{
  ℕ, zero, suc, ◌+◌, ◌*◌, ◌/◌, ◌%◌, ◌-◌, ◌≤◌, ◌<◌, ◌≡◌, ◌⊎◌, Bool, true, false, ◌&&◌, ◌||◌, List,
  [], ◌∷◌, ◌++◌, Option, none, some, ltb, leb, ◌==◌, if◌then◌else◌, length, get_or, take, drop, All,
}
use mathlib.Core.List.{reverse}

-- A Unicode scalar value: a code point that is no surrogate.
abbrev pub IsScalar : ℕ → Type 0
IsScalar c = (c < 0xd800) ⊎ ((0xe000 ≤ c) × (c < 0x11_0000))

-- `ch.len_utf8()`
pub len_utf8 : ℕ → ℕ
len_utf8 c = if ltb c 0x80 then 1 else if ltb c 0x800 then 2 else if ltb c 0x1_0000 then 3 else 4

-- The bytes that `ch.encode_utf8(..)` writes.
unfoldable pub encode_utf8 : ℕ → List ℕ
encode_utf8 c =
    if ltb c 0x80
    then c ∷ []
    else if ltb c 0x800
    then (0xc0 + c / 0x40) ∷ (0x80 + c % 0x40) ∷ []
    else if ltb c 0x1_0000
    then (0xe0 + c / 0x1000) ∷ (0x80 + c / 0x40 % 0x40) ∷ (0x80 + c % 0x40) ∷ []
    else (0xf0 + c / 0x4_0000)
      ∷ (0x80 + c / 0x1000 % 0x40)
      ∷ (0x80 + c / 0x40 % 0x40)
      ∷ (0x80 + c % 0x40)
      ∷ []

unfoldable pub encode : List ℕ → List ℕ
encode [] = []
encode (c ∷ cs) = encode_utf8 c ++ encode cs

-- What a `str` holds: the encoding of some scalar values.
pub record IsUtf8 (bytes : List ℕ) : Type 0 where
  pub chars : List ℕ
  pub scalars : All IsScalar chars
  pub encoded : encode chars ≡ bytes

abbrev pub is_continuation : ℕ → Bool
is_continuation b = leb 0x80 b && ltb b 0xc0

-- `s.is_char_boundary(i)`
pub is_char_boundary : List ℕ → ℕ → Bool
is_char_boundary s i =
    if i == 0
    then true
    else if leb (length s) i
    then i == length s
    else if is_continuation (get_or s i 0)
    then false
    else true

-- `s.chars().next()`. On a `str` the bytes that it reads are there.
pub first_char : List ℕ → Option ℕ
first_char [] = none
first_char (x ∷ r) =
    if ltb x 0x80
    then some x
    else if ltb x 0xe0
    then some (x % 0x20 * 0x40 + get_or r 0 0 % 0x40)
    else if ltb x 0xf0
    then some (x % 0x10 * 0x1000 + get_or r 0 0 % 0x40 * 0x40 + get_or r 1 0 % 0x40)
    else some (
        x % 8 * 0x4_0000
        + get_or r 0 0 % 0x40 * 0x1000
        + get_or r 1 0 % 0x40 * 0x40
        + get_or r 2 0 % 0x40)

-- `s.chars().rev().next()`: from the last byte back to the first that is no continuation byte.
pub last_char_of : List ℕ → Option ℕ
last_char_of [] = none
last_char_of (w ∷ r) =
    if ltb w 0x80
    then some w
    else if is_continuation (get_or r 0 0)
    then (if is_continuation (get_or r 1 0)
        then some (
            get_or r 2 0 % 8 * 0x4_0000
            + get_or r 1 0 % 0x40 * 0x1000
            + get_or r 0 0 % 0x40 * 0x40
            + w % 0x40)
        else some (get_or r 1 0 % 0x10 * 0x1000 + get_or r 0 0 % 0x40 * 0x40 + w % 0x40))
    else some (get_or r 0 0 % 0x20 * 0x40 + w % 0x40)

pub last_char : List ℕ → Option ℕ
unfolding last_char_of
last_char s = last_char_of (reverse s)

-- `s.get(from..)`, which `&s[from..]` unwraps.
unfoldable pub get_from : List ℕ → ℕ → Option (List ℕ)
get_from s from = if is_char_boundary s from then some (drop from s) else none

-- `s.get(from..to)`, which `&s[from..to]` unwraps.
unfoldable pub get_range : List ℕ → ℕ → ℕ → Option (List ℕ)
get_range s from to =
    if leb from to && (is_char_boundary s from && is_char_boundary s to)
    then some (take (to - from) (drop from s))
    else none
