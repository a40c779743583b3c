-- ===== src/Smart/Append.antt =====
-- `Extend`, `Add`, `FromIterator` and `fmt::Write`: a string is put together from others.
pub mod Impls
pub mod Laws
use smartstring.Smart.Rep.{Rep, Rep-swap, IsString-swap, IsString-swap_newer}
use smartstring.Smart.Macros.Shrink.{drop-Rep}
use smartstring.Smart.Convert.Laws.{deref-Rep}
use smartstring.Boxed.Strings.{RawString, text_of, drop_string, drop_string_lem, IsString}
use smartstring.Smart.Macros.{Method}
use smartstring.Smart.{new, SmartString}
use smartstring.Prelude.{
  ℕ, zero, suc, ◌+◌, ◌-◌, ◌*◌, ◌≤◌, ◌<◌, ◌≡◌, ◌∙◌, ◌↔◌, ◌⊎◌, refl, sym, ap, inl, inr, Bool, true,
  false, not, ◌&&◌, ◌||◌, List, [], ◌∷◌, ◌++◌, Option, none, some, arith, ltb, leb, ◌==◌,
  if◌then◌else◌, Bool-cases, Option-cases, length, take, length-append, append_assoc, append-nil,
  All,
}
use smartstring.Run.{
  Run, M, done, panicked, aborted, undefined, diverged, pure, panic, gets, unwrap, assert, ◌>>=◌,
  ◌>>◌, and_then, map_state, on_first, on_second,
}
use smartstring.Heap.{Heap, Allocator}
use smartstring.Heap.Succeeds
use smartstring.Heap.Succeeds.{Succeeds, returns, gives_up}
use smartstring.Smart.Methods.{push_str, extend, local}
use smartstring.Smart.Convert.{deref}
use smartstring.Smart.Macros.{drop}

-- Read-only items, such as `&SmartString`.
abbrev pub texts_of : List SmartString → List (List ℕ)
texts_of [] = []
texts_of (s ∷ items) = deref s ∷ texts_of items

-- What is moved into a method: it is read as a text and dropped. `Owned rest t i h` says that it
-- holds the text `t`, and that `h` is `rest` and its own block, if it has one.
pub record Item (I : Type 0) : Type 1 where
  pub text : I → List ℕ
  pub drop : Allocator → I → M Heap (Unit {0})
  pub Owned : Heap → List ℕ → I → Heap → Type 0
  pub text-Owned : {rest : Heap} {t : List ℕ} {i : I} {h : Heap} → Owned rest t i h → text i ≡ t
  pub drop-Owned :
      (a : Allocator) {rest : Heap} {t : List ℕ} {i : I} {h : Heap}
      → Owned rest t i h
      → drop a i h ≡ done tt rest
  pub swap :
      {rest : Heap} {t u : List ℕ} {i : I} {s : SmartString} {h h' : Heap}
      → Owned rest t i h
      → Rep h u s h'
      → (mid : Heap) × Rep rest u s mid × Owned mid t i h'
  pub swap_newer :
      {rest : Heap} {t u : List ℕ} {i : I} {s : SmartString} {h h' : Heap}
      → Rep rest u s h
      → Owned h t i h'
      → (mid : Heap) × Owned rest t i mid × Rep mid u s h'

instance abbrev pub smart_item : Item SmartString
smart_item = record {
  text = deref;
  drop = drop;
  Owned = Rep;
  text-Owned = deref-Rep;
  drop-Owned = λ a {rest} {t} {i} {h} r. drop-Rep a rest t i h r;
  swap = λ {rest} {t} {u} {i} {s} {h} {h'} r r'. Rep-swap rest t u i s h h' r r';
  swap_newer = λ {rest} {t} {u} {i} {s} {h} {h'} r r'. Rep-swap rest u t s i h h' r r';
}

-- A `String`
instance abbrev pub string_item : Item RawString
string_item = record {
  text = text_of;
  drop = drop_string;
  Owned = IsString;
  text-Owned = λ w. w.text_eq;
  drop-Owned = λ a {rest} {t} {i} {h} w. drop_string_lem a rest i h w.owned;
  swap = IsString-swap;
  swap_newer = IsString-swap_newer;
}

module _ (a : Allocator) where
  -- A local variable goes out of scope: at the end, or when a panic unwinds.
  unfoldable pub scoped :
      {I A : Type 0} ⦃i : Item I⦄ → I → Run (SmartString × Heap) A → Run (SmartString × Heap) A
  scoped ⦃i = i⦄ t (done x (s, h)) =
      and_then (map_state (λ h'. (s, h')) (i.drop a t h)) (λ _. pure x)
  scoped ⦃i = i⦄ t (panicked (s, h)) =
      and_then (map_state (λ h'. (s, h')) (i.drop a t h)) (λ _. panic)
  scoped t (aborted q) = aborted q
  scoped t undefined = undefined
  scoped t diverged = diverged

  -- `impl Extend<&SmartString>`
  pub extend_refs : List SmartString → Method (Unit {0})
  extend_refs items = extend a (texts_of items)

  -- `impl Extend<SmartString>` and `impl Extend<String>`: each item is dropped once it was pushed.
  pub extend_owned : {I : Type 0} ⦃i : Item I⦄ → List I → Method (Unit {0})
  unfolding scoped
  extend_owned [] = pure tt
  extend_owned ⦃i = i⦄ (item ∷ iter) = do
    (λ p. scoped item (push_str a (i.text item) p))
    extend_owned iter

  -- `impl Add<&str>`, with `&SmartString`, `&String` and `String`
  pub add_str : SmartString → List ℕ → M Heap SmartString
  add_str s rhs h = local a (push_str a rhs (s, h))

  -- `impl Add<SmartString>` and `impl Add<String>`
  pub add : {I : Type 0} ⦃i : Item I⦄ → SmartString → I → M Heap SmartString
  unfolding scoped
  add ⦃i = i⦄ s rhs h = local a (scoped rhs (push_str a (i.text rhs) (s, h)))

  -- `impl FromIterator`, over texts and over owned strings
  pub from_texts : List (List ℕ) → M Heap SmartString
  from_texts iter h = local a (extend a iter (new, h))

  pub from_owned : {I : Type 0} ⦃i : Item I⦄ → List I → M Heap SmartString
  unfolding extend_owned
  from_owned iter h = local a (extend_owned iter (new, h))

  -- `Write::write_str`, which is always `Ok`
  pub write_str : List ℕ → Method Bool
  write_str string = do push_str a string; pure true
