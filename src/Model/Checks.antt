-- ===== src/Model/Checks.antt =====
-- test.rs: the assertions, `assert_invariants` after each action and those of `Action::perform`.
pub mod Passes
pub mod Equal
use smartstring.Smart.Append.{smart_item}
use smartstring.Inline.{max_inline}
use smartstring.Smart.Macros.{Method}
use smartstring.Smart.{dealloc, is_inline, Mode}
use smartstring.Boxed.{StdString}
use smartstring.Smart.Convert.Sources.{from_string_ref, from_string_ref-Made}
use smartstring.Smart.Compare.Laws.{cmp-texts}
use smartstring.Smart.Macros
use smartstring.Prelude.{
  isize_max, ℕ, zero, suc, ◌+◌, ◌-◌, ◌*◌, ◌≤◌, ◌<◌, ◌≡◌, ◌∙◌, ◌↔◌, ◌⊎◌, refl, sym, ap, inl, inr,
  Bool, true, false, not, ◌&&◌, ◌||◌, List, [], ◌∷◌, ◌++◌, Option, none, some, arith, ltb, leb,
  ◌==◌, if◌then◌else◌, Bool-cases, Option-cases, length, take, drop, length-append, append_assoc,
  append-nil, All,
}
use smartstring.Run.{
  Run, M, done, panicked, aborted, undefined, diverged, pure, panic, gets, unwrap, assert, ◌>>=◌,
  ◌>>◌, and_then, map_state, on_first, on_second,
}
use smartstring.Heap.{Heap, Allocator}
use smartstring.Heap.Succeeds
use smartstring.Heap.Succeeds.{Succeeds, returns, gives_up}
use smartstring.Model.{Reply, nothing, maybe_char, char, bytes, Action, control, perform}
use smartstring.Model.Answers.{Agrees, Answer, IsTight, growth}
use smartstring.Model.Runs.{Sound, settled, growth_all, length-settled}
use smartstring.Model.Refines.{perform-Agrees}
use smartstring.Model.Utf8.{IsTyped, control-IsUtf8, Kept}
use smartstring.Smart.Convert as Convert
use smartstring.Smart.Convert.Laws.{deref-Rep, len-Rep, from_str-Made}
use smartstring.Smart.Compare.{bytes_eq, bytes_cmp, partial_cmp_str, cmp}
use smartstring.Smart.Compare.Laws.{bytes_eq_iff, cmp-eq}
use smartstring.Smart.Append.{scoped}
use smartstring.Smart.Macros.Shrink.{drop-Rep}
use Prim.Native.Nat.{Ordering}

-- `==` of the values that `assert_eq!` compares.
option_eq : Option ℕ → Option ℕ → Bool
option_eq none none = true
option_eq (some x) (some y) = x == y
option_eq _ _ = false

pub reply_eq : Reply → Reply → Bool
unfolding option_eq
reply_eq nothing nothing = true
reply_eq (maybe_char x) (maybe_char y) = option_eq x y
reply_eq (char x) (char y) = x == y
reply_eq (bytes x) (bytes y) = bytes_eq x y
reply_eq _ _ = false

pub ordering_eq : Ordering → Ordering → Bool
ordering_eq Ordering.lt Ordering.lt = true
ordering_eq Ordering.eq Ordering.eq = true
ordering_eq Ordering.gt Ordering.gt = true
ordering_eq _ _ = false

bool_eq : Bool → Bool → Bool
bool_eq true b = b
bool_eq false b = not b

-- "ordering test"
abbrev pub ordering_test : List ℕ
ordering_test =
    0x6f ∷ 0x72 ∷ 0x64 ∷ 0x65 ∷ 0x72 ∷ 0x69 ∷ 0x6e ∷ 0x67 ∷ 0x20 ∷ 0x74 ∷ 0x65 ∷ 0x73 ∷ 0x74 ∷ []

-- An action that panics where its control does is as it should be, and so is one that replies what
-- its control does; anything else fails the test.
pub checked :
    {σ : Type 0} → Option (List ℕ × Reply) → Run σ Reply → M σ (Unit {0}) → Run σ (Unit {0})
checked none (panicked s) next = next s
checked none (done y s) next = panicked s
checked (some (text, x)) (done y s) next = if reply_eq x y then next s else panicked s
checked (some (text, x)) (panicked s) next = panicked s
checked _ (aborted q) next = aborted q
checked _ undefined next = undefined
checked _ diverged next = diverged

module _ (a : Allocator) (m : Mode) where
  -- `subject.partial_cmp(..)` answers `some`, as `str` does.
  pub same_order : List ℕ → Option Ordering → Bool
  unfolding ordering_eq
  same_order text none = false
  same_order text (some o) = ordering_eq (bytes_cmp text ordering_test) o

  assert_inline : Method (Unit {0})
  unfolding bool_eq
  assert_inline = do
    here ← gets (λ p. is_inline p.0)
    len ← gets (λ p. Convert.len p.0)
    if dealloc m then assert (bool_eq here (leb len max_inline)) else pure tt

  pub assert_invariants : List ℕ → Method (Unit {0})
  unfolding assert_inline
  assert_invariants text = do
    len ← gets (λ p. Convert.len p.0)
    assert (length text == len)
    subject ← gets (λ p. Convert.deref p.0)
    assert (bytes_eq text subject)
    assert_inline
    order ← gets (λ p. partial_cmp_str p.0 ordering_test)
    assert (same_order text order)
    control_smart ← on_second (Convert.from_str a text)
    λ (s, h). scoped a control_smart (assert (ordering_eq Ordering.eq (cmp s control_smart)) (s, h))

  -- The loop of `test_everything`.
  pub tested : List Action → List ℕ → Method (Unit {0})
  tested [] text = assert_invariants text
  tested (action ∷ actions) text = do
    assert_invariants text
    λ p.
        checked (control action text) (perform a m action p)
          (tested actions (settled text (control action text)))

  -- The two locals are dropped when the assertion has been made, and also when it fails.
  pub test_ordering : StdString → StdString → M Heap (Unit {0})
  test_ordering left right = do
    smart_left ← from_string_ref a left
    smart_right ← from_string_ref a right
    let same = ordering_eq (bytes_cmp left.text right.text) (cmp smart_left smart_right)
    Macros.drop a smart_right
    Macros.drop a smart_left
    assert same
