-- ===== src/Model/Checks/Passes.antt =====
-- The assertions of test.rs hold along every run of actions.
use smartstring.Smart.Append.{smart_item}
use smartstring.Utf8.{IsUtf8}
use smartstring.Smart.Rep.{Rep}
use smartstring.Boxed.Grow.{request_limit}
use smartstring.Inline.{max_inline}
use smartstring.Smart.{is_inline, dealloc, SmartString, Mode}
use smartstring.Boxed.{StdString}
use smartstring.Smart.Convert.Sources.{from_string_ref-Made}
use smartstring.Smart.Compare.Laws.{cmp-texts}
use smartstring.Prelude.{
  isize_max, ℕ, ◌+◌, ◌<◌, ◌≡◌, refl, inl, inr, Bool, true, false, List, [], ◌∷◌, Option, none, some,
  arith, leb, ◌==◌, Bool-cases, length, All,
}
use smartstring.Run.{Run, M, done, assert}
use smartstring.Heap.{Heap, Allocator}
use smartstring.Heap.Succeeds
use smartstring.Heap.Succeeds.{Succeeds, returns, gives_up}
use smartstring.Model.{Reply, nothing, maybe_char, char, bytes, Action, control, perform}
use smartstring.Model.Answers.{Agrees, Answer}
use smartstring.Model.Runs.{Sound, settled, growth_all, length-settled, control_all}
use smartstring.Model.Refines.{perform-Agrees}
use smartstring.Model.Utf8.{IsTyped, control-IsUtf8, Kept}
use smartstring.Model.Checks.{
  test_ordering, reply_eq, option_eq, ordering_eq, bool_eq, same_order, assert_inline,
  assert_invariants, checked, tested, ordering_test,
}
use smartstring.Smart.Convert.Laws.{deref-Rep, len-Rep, from_str-Made}
use smartstring.Smart.Compare.{bytes_eq, bytes_cmp, partial_cmp_str, cmp}
use smartstring.Smart.Compare.Laws.{bytes_eq_iff, cmp-eq}
use smartstring.Smart.Append.{scoped}
use smartstring.Smart.Macros.Shrink.{drop-Rep}
use Prim.Native.Nat.{Ordering}

option_eq_refl : (x : Option ℕ) → option_eq x x ≡ true
unfolding option_eq
option_eq_refl none = refl
option_eq_refl (some x) = ground arith

reply_eq_refl : (x : Reply) → reply_eq x x ≡ true
unfolding reply_eq
reply_eq_refl nothing = refl
reply_eq_refl (maybe_char x) = option_eq_refl x
reply_eq_refl (char x) = ground arith
reply_eq_refl (bytes x) = (bytes_eq_iff x x).1 refl

ordering_eq_refl : (o : Ordering) → ordering_eq o o ≡ true
unfolding ordering_eq
ordering_eq_refl Ordering.lt = refl
ordering_eq_refl Ordering.eq = refl
ordering_eq_refl Ordering.gt = refl

bool_eq_refl : (b : Bool) → bool_eq b b ≡ true
unfolding bool_eq
bool_eq_refl true = refl
bool_eq_refl false = refl

module _ (a : Allocator) (rest : Heap) (m : Mode) where
  assert_inline-Sound :
      (text : List ℕ) (p : SmartString × Heap)
      → Sound rest m text p
      → assert_inline a m p ≡ done tt p
  unfolding assert_inline
  assert_inline-Sound text p sound = elim (Bool-cases (dealloc m)) [
    | inl eager ↦
        rw
          (len-Rep sound.rep, eager, sound.tight eager, bool_eq_refl (leb (length text) max_inline))
          refl
    | inr lazy ↦ rw lazy refl
  ]

  -- The string that the control is turned into is dropped.
  compared :
      (text : List ℕ) (p : SmartString × Heap)
      → Sound rest m text p
      → (c : SmartString) (h : Heap) → Rep p.1 text c h
      → Succeeds a
          (λ _ q. Sound rest m text q)
          (scoped a c (assert (ordering_eq Ordering.eq (cmp p.0 c)) (p.0, h)))
  unfolding scoped ordering_eq
  compared text p sound c h r =
      let (_, equal, _, _, _) = cmp-eq sound.rep r in
      rw (equal.1 refl, drop-Rep a p.1 text c h r) (returns sound)

  assert_invariants-Sound :
      (text : List ℕ) (p : SmartString × Heap)
      → Sound rest m text p
      → length text < request_limit
      → Succeeds a (λ _ q. Sound rest m text q) (assert_invariants a m text p)
  unfolding assert_invariants partial_cmp_str same_order scoped
  assert_invariants-Sound text p sound lim =
      let same_length : (length text == length text) ≡ true = ground arith in
      let same : bytes_eq text text ≡ true = (bytes_eq_iff text text).1 refl in
      rw (len-Rep sound.rep, same_length)
        (rw (deref-Rep sound.rep, same)
          (rw (assert_inline-Sound text p sound) (
            rw (deref-Rep sound.rep, ordering_eq_refl (bytes_cmp text ordering_test))
              (Succeeds.bind_map (λ h. (p.0, h)) _ (from_str-Made a p.1 text (omega arith))
                λ c h made. compared text p sound c h made.0))))

  -- An answer passes the assertions about it.
  Answer-Sound :
      {Q : Unit {0} → SmartString × Heap → Type 0} (text text' : List ℕ) (x : Reply)
      (p : SmartString × Heap) (next : M (SmartString × Heap) (Unit {0}))
      (run : Run (SmartString × Heap) Reply)
      → Sound rest m text p
      → IsUtf8 text'
      → Succeeds a (Answer rest m (is_inline p.0) text text' x) run
      → ((q : SmartString × Heap) → Sound rest m text' q → Succeeds a Q (next q))
      → Succeeds a Q (checked (some (text', x)) run next)
  unfolding checked
  Answer-Sound text text' x p next _ sound kept (returns {s = q} answer) continue =
      rw (answer.result, reply_eq_refl x)
        (continue q (record { rep = answer.rep; utf8 = kept; tight = answer.tight sound.tight }))
  Answer-Sound text text' x p next _ sound kept (gives_up e) continue = gives_up e

  checked-Sound :
      {Q : Unit {0} → SmartString × Heap → Type 0} (text : List ℕ) (p : SmartString × Heap)
      (next : M (SmartString × Heap) (Unit {0})) (answer : Option (List ℕ × Reply))
      (run : Run (SmartString × Heap) Reply)
      → Sound rest m text p
      → Kept answer
      → Agrees a rest m p.0 p.1 text answer run
      → ((q : SmartString × Heap) → Sound rest m (settled text answer) q → Succeeds a Q (next q))
      → Succeeds a Q (checked answer run next)
  unfolding checked
  checked-Sound text p next none run sound kept agrees continue = rw agrees (continue p sound)
  checked-Sound text p next (some (text', x)) run sound kept agrees continue =
      Answer-Sound text text' x p next run sound kept agrees continue

  pub tested-Sound :
      (actions : List Action) (text : List ℕ) (p : SmartString × Heap)
      → All IsTyped actions
      → length text + growth_all actions < request_limit
      → Sound rest m text p
      → Succeeds a (λ _ q. Sound rest m (control_all actions text) q) (tested a m actions text p)
  unfolding tested control_all
  tested-Sound [] text p typed lim sound = assert_invariants-Sound text p sound (omega arith)
  tested-Sound (action ∷ actions) text p (t, ts) lim sound =
      Succeeds.bind (assert_invariants-Sound text p sound (omega arith)) λ _ q again.
        checked-Sound text q (tested a m actions (settled text (control action text)))
          (control action text) (perform a m action q) again
          (control-IsUtf8 text again.utf8 action t)
          (perform-Agrees a rest m q.0 q.1 text again.rep again.utf8 action (omega arith))
          λ q2 next.
            tested-Sound actions (settled text (control action text)) q2 ts
              (omega (arith, length-settled text again.utf8 action)) next

-- The comparison test passes, and frees both strings.
test_ordering-frees :
    (a : Allocator) (m : Mode) (rest : Heap) (left right : StdString)
    → length left.text < isize_max
    → length right.text < isize_max
    → Succeeds a (λ _ h. h ≡ rest) (test_ordering a m left right rest)
unfolding test_ordering
test_ordering-frees a m rest left right l r =
    Succeeds.bind (from_string_ref-Made a rest left l) λ s h (rep, _).
      Succeeds.bind (from_string_ref-Made a h right r) λ t h' (rep', _).
        rw
          (
            drop-Rep a h right.text t h' rep',
            drop-Rep a rest left.text s h rep,
            cmp-texts rep rep',
            ordering_eq_refl (bytes_cmp left.text right.text),
          )
          (returns refl)
