-- ===== src/Smart/Convert.antt =====
-- The conversions of lib.rs: from and to the standard library's strings, `clone`, and reading.
pub mod Laws
pub mod Sources
pub mod Takeover
use smartstring.Prelude.{ℕ, Bool, List, Option, none, some, ltb, leb, ◌==◌, if◌then◌else◌, length}
use smartstring.Run.{Run, M, done, panicked, pure, panic, unwrap, ◌>>=◌, ◌>>◌, and_then, map_state}
use smartstring.Inline
use smartstring.Inline.{max_inline}
use smartstring.Heap.{Heap, Allocator}
use smartstring.Boxed
use smartstring.Boxed.Into as Into
use smartstring.Boxed.Strings.{RawString, copy_string}
use smartstring.Boxed.{StdString, to_string}
use smartstring.Smart.{SmartString, StringCast, boxed, inline, cast, from_boxed, from_inline}

deref_cast : StringCast → List ℕ
deref_cast (boxed b) = Boxed.deref b
deref_cast (inline i) = Inline.deref i

-- `impl Deref`
pub deref : SmartString → List ℕ
unfolding deref_cast
deref s = deref_cast (cast s)

pub as_str : SmartString → List ℕ
as_str s = deref s

-- `impl AsRef<str>`, `impl AsRef<[u8]>` and `impl Borrow<str>`
pub as_ref : SmartString → List ℕ
as_ref s = deref s

pub as_ref_bytes : SmartString → List ℕ
as_ref_bytes s = deref s

pub borrow : SmartString → List ℕ
borrow s = deref s

len_cast : StringCast → ℕ
len_cast (boxed b) = length (Boxed.deref b)
len_cast (inline i) = Inline.size i

pub len : SmartString → ℕ
unfolding len_cast
len s = len_cast (cast s)

pub is_empty : SmartString → Bool
unfolding len
is_empty s = len s == 0

capacity_cast : StringCast → ℕ
capacity_cast (boxed b) = b.cap
capacity_cast (inline i) = max_inline

pub capacity : SmartString → ℕ
unfolding capacity_cast
capacity s = capacity_cast (cast s)

module _ (a : Allocator) where
  -- `impl From<String>`
  pub from_string : StdString → M Heap SmartString
  from_string string =
      if ltb max_inline (length string.text)
      then (do b ← Boxed.from_string a string; pure (from_boxed b))
      else (do i ← unwrap (Inline.from_str string.text); pure (from_inline i))

  -- `impl From<&str>`
  pub from_str : List ℕ → M Heap SmartString
  from_str string =
      if ltb max_inline (length string)
      then (do b ← Boxed.from_string a (to_string string); pure (from_boxed b))
      else (do i ← unwrap (Inline.from_str string); pure (from_inline i))

  into_cast : StringCast → M Heap RawString
  into_cast (boxed b) = Into.into_string a b
  into_cast (inline i) = copy_string a (Inline.deref i)

  -- `impl From<SmartString> for String`
  pub into_string : SmartString → M Heap RawString
  unfolding into_cast
  into_string s = into_cast (cast s)

  clone_cast : StringCast → M Heap SmartString
  clone_cast (boxed b) = do c ← Boxed.clone a b; pure (from_boxed c)
  clone_cast (inline i) = pure (from_inline i)

  pub clone : SmartString → M Heap SmartString
  unfolding clone_cast
  clone s = clone_cast (cast s)
