-- ===== src/Smart/Append/Impls.antt =====
-- The impls of lib.rs that pass on to another one: over `String` and `&String`, and references.
use smartstring.Prelude.{ℕ, ◌+◌, ◌<◌, ◌≡◌, Bool, List, [], ◌∷◌, ◌++◌, ltb, if◌then◌else◌, length}
use smartstring.Run.{
  Run, M, done, panicked, aborted, undefined, diverged, pure, panic, unwrap, ◌>>=◌, and_then,
}
use smartstring.Heap.{Heap, Allocator}
use smartstring.Heap.Succeeds.{Succeeds, returns, gives_up}
use smartstring.Smart.Append.{
  smart_item, string_item, texts_of, extend_owned, add_str, add, from_texts, from_owned,
}
use smartstring.Boxed.Strings.{RawString, IsString, text_of}
use smartstring.Smart.{SmartString, new}
use smartstring.Smart.Methods.{extend}
use smartstring.Smart.Macros.{Method, drop}
use smartstring.Smart.Convert.{from_str, deref}
use smartstring.Inline
use smartstring.Inline.{max_inline}
use smartstring.Boxed
use smartstring.Boxed.{to_string}
use smartstring.Boxed.Strings.{drop_string}
use smartstring.Smart.{from_boxed, from_inline}
use smartstring.Smart.Compare.Laws.{eq_str_lem, str_eq_lem}
use smartstring.Smart.Compare.{bytes_eq, eq_str, str_eq}
use smartstring.Smart.Rep.{Rep, IsString-swap, IsString-swap_newer}
use smartstring.Smart.Macros.Shrink.{drop-Rep}
use smartstring.Smart.Convert.Laws.{deref-Rep}
use smartstring.Boxed.Grow.{request_limit}

abbrev string_texts : List RawString → List (List ℕ)
string_texts [] = []
string_texts (s ∷ items) = text_of s ∷ string_texts items

-- The constant constructors of the two modes
pub new_const : SmartString
new_const = from_inline Inline.new

-- `impl Default`
pub default : SmartString
default = new

module _ (a : Allocator) where
  -- `impl Extend<String>`
  pub extend_strings : List RawString → Method (Unit {0})
  extend_strings items = extend_owned a items

  -- `impl Extend<&String>`
  pub extend_string_refs : List RawString → Method (Unit {0})
  extend_string_refs items = extend a (string_texts items)

  -- `impl Add<&SmartString>`
  pub add_ref : SmartString → SmartString → M Heap SmartString
  add_ref s rhs = add_str a s (deref rhs)

  -- `impl Add<&String>`
  pub add_string_ref : SmartString → RawString → M Heap SmartString
  add_string_ref s rhs = add_str a s (text_of rhs)

  -- `impl Add<String>`
  pub add_string : SmartString → RawString → M Heap SmartString
  add_string s rhs = add a s rhs

  -- The end of `String + SmartString`: the right one is dropped, and the left one is returned, or
  -- dropped when a panic unwinds.
  unfoldable pub added : SmartString → Run (RawString × Heap) (Unit {0}) → Run Heap RawString
  added rhs (done x (s, h)) = and_then (drop a rhs h) (λ _. pure s)
  added rhs (panicked (s, h)) =
      and_then (drop a rhs h) (λ _ h'. and_then (drop_string a s h') (λ _. panic))
  added rhs (aborted q) = aborted q
  added rhs undefined = undefined
  added rhs diverged = diverged

  -- `impl Add<SmartString> for String`, with the `push_str` of the standard library
  pub add_to_string :
      (List ℕ → M (RawString × Heap) (Unit {0})) → RawString → SmartString → M Heap RawString
  unfolding added
  add_to_string push_str s rhs h = added rhs (push_str (deref rhs) (s, h))

  -- `impl FromIterator<String>`
  pub from_strings : List RawString → M Heap SmartString
  from_strings iter = from_owned a iter

  -- `impl FromIterator<&SmartString>`
  pub from_refs : List SmartString → M Heap SmartString
  from_refs iter = from_texts a (texts_of iter)

  -- `impl FromIterator<&String>`
  pub from_string_refs : List RawString → M Heap SmartString
  from_string_refs iter = from_texts a (string_texts iter)

  -- `impl FromStr`, which has no error
  pub parse : List ℕ → M Heap SmartString
  parse s = from_str a s

  -- `impl From<&mut str>`
  pub from_mut_str : List ℕ → M Heap SmartString
  from_mut_str string =
      if ltb max_inline (length string)
      then (do b ← Boxed.from_string a (to_string string); pure (from_boxed b))
      else (do i ← unwrap (Inline.from_str string); pure (from_inline i))

-- `impl PartialEq<&str>`
pub eq_str_ref : SmartString → List ℕ → Bool
eq_str_ref s other = eq_str s other

-- `impl PartialEq<String>`
pub eq_string : SmartString → RawString → Bool
eq_string s other = eq_str s (text_of other)

-- `impl PartialEq<SmartString> for String`
pub string_eq : RawString → SmartString → Bool
string_eq s other = str_eq (text_of s) other

-- A `push_str` of the standard library: unless the allocator answers null, the `String` then holds
-- both texts and owns its block and no other.
abbrev pub Pushes : Allocator → (List ℕ → M (RawString × Heap) (Unit {0})) → Type 0
Pushes a push_str =
    (rest : Heap) (text more : List ℕ) (s : RawString) (h : Heap)
    → IsString rest text s h
    → length text + length more < request_limit
    → Succeeds a (λ _ p. IsString rest (text ++ more) p.0 p.1) (push_str more (s, h))

module _ (a : Allocator) where
  added-IsString :
      (rest older : Heap) (text tail : List ℕ) (rhs : SmartString)
      {run : Run (RawString × Heap) (Unit {0})}
      → Rep rest tail rhs older
      → Succeeds a (λ _ p. IsString older text p.0 p.1) run
      → Succeeds a (IsString rest text) (added a rhs run)
  unfolding added
  added-IsString rest older text tail rhs r (returns {s = p} w) =
      let (mid, w', r') = IsString-swap_newer r w in
      rw (drop-Rep a mid tail rhs p.1 r') (returns w')
  added-IsString rest older text tail rhs r (gives_up e) = gives_up e

  -- For a push_str of the standard library that appends to any String unless the allocator answers
  -- null: a String, plus a newer string of either form, with the lengths together below 2^62,
  -- gives a String with both texts and a block of its own, and the string on the right has been
  -- freed.
  pub add_to_string-IsString :
      (push_str : List ℕ → M (RawString × Heap) (Unit {0}))
      → Pushes a push_str
      → (rest mid : Heap) (text tail : List ℕ) (s : RawString) (rhs : SmartString) (h : Heap)
      → IsString rest text s mid
      → Rep mid tail rhs h
      → length text + length tail < request_limit
      → Succeeds a (IsString rest (text ++ tail)) (add_to_string a push_str s rhs h)
  unfolding add_to_string
  add_to_string-IsString push_str pushes rest mid text tail s rhs h w r lim =
      let (older, r', w') = IsString-swap w r in
      added-IsString rest older (text ++ tail) tail rhs r'
        (rw (deref-Rep r) (pushes older text tail s h w' lim))

-- The comparisons of a string are those of its text.
module _ {rest : Heap} {text : List ℕ} {s : SmartString} {h : Heap} (r : Rep rest text s h) where
  pub eq_str_ref_lem : (other : List ℕ) → eq_str_ref s other ≡ bytes_eq text other
  unfolding eq_str_ref
  eq_str_ref_lem other = eq_str_lem r other

  pub eq_string_lem : (other : RawString) → eq_string s other ≡ bytes_eq text (text_of other)
  unfolding eq_string
  eq_string_lem other = eq_str_lem r (text_of other)

  pub string_eq_lem : (other : RawString) → string_eq other s ≡ bytes_eq text (text_of other)
  unfolding string_eq
  string_eq_lem other = str_eq_lem r (text_of other)
