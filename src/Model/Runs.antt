-- ===== src/Model/Runs.antt =====
-- test.rs: `test_everything`, a constructor and then a run of actions.
use smartstring.Model.Texts.{length-control_retain}
use smartstring.Model.Bounds.{should_panic-Within, ends, starts, should_panic, TestBounds}
use smartstring.Prelude.{
  false, ℕ, ◌+◌, ◌-◌, ◌≤◌, ◌<◌, ◌≡◌, inl, inr, true, List, [], ◌∷◌, Option, none, some, arith,
  length, take, drop, ltb, Bool-cases, length-append, length-take, length-drop, All,
}
use smartstring.Run.{Run, M, done, panicked, aborted, undefined, diverged}
use smartstring.Heap.{Heap, Allocator}
use smartstring.Heap.Succeeds.{Succeeds, returns, gives_up}
use smartstring.Utf8.{IsUtf8, encode_utf8, len_utf8, is_char_boundary, last_char, first_char}
use smartstring.Utf8.Laws.{boundary_le, length-encode_utf8}
use smartstring.Boxed.Grow.{request_limit}
use smartstring.Ops.Splice.{splice}
use smartstring.Ops.InsertBytes.{length-splice}
use smartstring.Smart.{SmartString, Mode, is_inline}
use smartstring.Smart.Rep.{Rep}
use smartstring.Smart.Macros.{Method}
use smartstring.Drain.Chars as Chars
use smartstring.Model.{
  slice, split_off, into_string, retain, drain, control_slice, control_drain, is_ignored, Action,
  Reply, control, control_pop, control_remove, control_range, push, push_str, truncate, pop, remove,
  insert, insert_str, clear, replace_range, perform,
}
use smartstring.Model.Answers.{growth, IsTight, Answer, Agrees}
use smartstring.Model.Utf8.{IsTyped, Kept, control-IsUtf8}
use smartstring.Model.Refines.{perform-Agrees}

-- The tests catch the panics of an action, and go on with the string that it leaves.
abbrev pub caught : {σ A : Type 0} → Run σ A → M σ (Unit {0}) → Run σ (Unit {0})
caught (done x s) next = next s
caught (panicked s) next = next s
caught (aborted q) next = aborted q
caught undefined next = undefined
caught diverged next = diverged

-- The control's text after an action.
abbrev pub settled : List ℕ → Option (List ℕ × Reply) → List ℕ
settled text none = text
settled text (some (text', reply)) = text'

unfoldable pub control_all : List Action → List ℕ → List ℕ
control_all [] text = text
control_all (action ∷ actions) text = control_all actions (settled text (control action text))

abbrev pub growth_all : List Action → ℕ
growth_all [] = 0
growth_all (action ∷ actions) = growth action + growth_all actions

module _ (a : Allocator) (m : Mode) where
  -- The loop of `test_everything`, without the assertions that it makes after each action.
  pub perform_all : List Action → Method (Unit {0})
  perform_all [] p = done tt p
  perform_all (action ∷ actions) p = caught (perform a m action p) (perform_all actions)

-- An action makes the text longer by its growth at most.
module _ (text : List ℕ) where
  length-pop : (last : Option ℕ) → length ((control_pop last text).0) ≤ length text
  unfolding control_pop
  length-pop none = omega arith
  length-pop (some ch) = omega (arith, length-take (length text - len_utf8 ch) text)

  length-remove :
      (index : ℕ) (first : Option ℕ)
      → length (settled text (control_remove index first text)) ≤ length text
  unfolding control_remove
  length-remove index none = omega arith
  length-remove index (some ch) = omega (
    arith,
    length-append (take index text) (drop (index + len_utf8 ch) text),
    length-take index text,
    length-drop (index + len_utf8 ch) text,
  )

  length-insert :
      (index : ℕ) (src : List ℕ)
      → is_char_boundary text index ≡ true
      → length (splice index index src text) ≤ length text + length src
  length-insert index src b =
      let le = boundary_le text index b in
      omega (arith, le, length-splice index index src text (omega arith) le)

  length-spliced :
      (b : TestBounds) (src : List ℕ)
      → should_panic b text ≡ false
      → length (splice (starts b) (ends b text) src text) ≤ length text + length src
  length-spliced b src ok =
      let w = should_panic-Within text b ok in
      omega (
        arith,
        w.ordered,
        w.inside,
        length-splice (starts b) (ends b text) src text w.ordered w.inside,
      )

  length-slice : (b : TestBounds) → length (settled text (control (slice b) text)) ≤ length text
  unfolding control control_slice
  length-slice b = elim (Bool-cases (should_panic b text)) [
    | inl panics ↦ rw panics (omega arith)
    | inr ok ↦ rw ok (omega arith)
  ]

  length-drain : (b : TestBounds) → length (settled text (control (drain b) text)) ≤ length text
  unfolding control control_drain
  length-drain b = elim (Bool-cases (is_ignored b)) [
    | inl ignored ↦ rw ignored (omega arith)
    | inr tried ↦ elim (Bool-cases (should_panic b text)) [
      | inl panics ↦ rw (tried, panics) (omega arith)
      | inr ok ↦ rw (tried, ok) (omega (arith, length-spliced b [] ok))
    ]
  ]

  length-range :
      (b : TestBounds) (src : List ℕ)
      → length (settled text (control (replace_range b src) text)) ≤ length text + length src
  unfolding control control_range
  length-range b src = elim (Bool-cases (is_ignored b)) [
    | inl ignored ↦ rw ignored (omega arith)
    | inr tried ↦ elim (Bool-cases (should_panic b text)) [
      | inl panics ↦ rw (tried, panics) (omega arith)
      | inr ok ↦ rw (tried, ok) (length-spliced b src ok)
    ]
  ]

  length-retain :
      IsUtf8 text
      → (filter : List ℕ) → length (settled text (control (retain filter) text)) ≤ length text
  unfolding control
  length-retain u filter =
      rw (← u.encoded, Chars.collect-encode u.chars u.scalars)
        (length-control_retain filter u.chars)

  pub length-settled :
      IsUtf8 text
      → (action : Action)
      → length (settled text (control action text)) ≤ length text + growth action
  unfolding control
  length-settled u (slice b) = omega (arith, length-slice b)
  length-settled u (push ch) =
      omega (arith, length-append text (encode_utf8 ch), length-encode_utf8 ch)
  length-settled u (push_str string) = omega (arith, length-append text string)
  length-settled u (truncate n) = elim (Bool-cases (ltb n (length text))) [
    | inl shorter ↦ elim (Bool-cases (is_char_boundary text n)) [
      | inl b ↦ rw (shorter, b) (omega (arith, length-take n text))
      | inr off ↦ rw (shorter, off) (omega arith)
    ]
    | inr longer ↦ rw longer (omega arith)
  ]
  length-settled u pop = omega (arith, length-pop (last_char text))
  length-settled u (remove index) = elim (Bool-cases (is_char_boundary text index)) [
    | inl b ↦ rw b (omega (arith, length-remove index (first_char (drop index text))))
    | inr off ↦ rw off (omega arith)
  ]
  length-settled u (insert index ch) = elim (Bool-cases (is_char_boundary text index)) [
    | inl b ↦ rw b (omega (arith, length-insert index (encode_utf8 ch) b, length-encode_utf8 ch))
    | inr off ↦ rw off (omega arith)
  ]
  length-settled u (insert_str index string) = elim (Bool-cases (is_char_boundary text index)) [
    | inl b ↦ rw b (length-insert index string b)
    | inr off ↦ rw off (omega arith)
  ]
  length-settled u (split_off index) = elim (Bool-cases (is_char_boundary text index)) [
    | inl b ↦ rw b (omega (arith, length-take index text))
    | inr off ↦ rw off (omega arith)
  ]
  length-settled u clear = omega arith
  length-settled u into_string = omega arith
  length-settled u (retain filter) = omega (arith, length-retain u filter)
  length-settled u (drain b) = omega (arith, length-drain b)
  length-settled u (replace_range b src) = length-range b src

-- What the tests assert after each action, and what the next one needs.
pub record Sound (rest : Heap) (m : Mode) (text : List ℕ) (p : SmartString × Heap) : Type 0 where
  pub rep : Rep rest text p.0 p.1
  pub utf8 : IsUtf8 text
  pub tight : IsTight m (is_inline p.0) text

module _ (a : Allocator) (rest : Heap) (m : Mode) where
  answered-Sound :
      (text text' : List ℕ) (p : SmartString × Heap) (next : M (SmartString × Heap) (Unit {0}))
      {Q : Unit {0} → SmartString × Heap → Type 0} (reply : Reply)
      (run : Run (SmartString × Heap) Reply)
      → Sound rest m text p
      → IsUtf8 text'
      → ((q : SmartString × Heap) → Sound rest m text' q → Succeeds a Q (next q))
      → Succeeds a (Answer rest m (is_inline p.0) text text' reply) run
      → Succeeds a Q (caught run next)
  answered-Sound text text' p next reply run sound kept continue (returns {s = q} answer) =
      continue q (record { rep = answer.rep; utf8 = kept; tight = answer.tight sound.tight })
  answered-Sound text text' p next reply run sound kept continue (gives_up e) = gives_up e

  settled-Sound :
      (text : List ℕ) (p : SmartString × Heap) (next : M (SmartString × Heap) (Unit {0}))
      {Q : Unit {0} → SmartString × Heap → Type 0} (answer : Option (List ℕ × Reply))
      (run : Run (SmartString × Heap) Reply)
      → Sound rest m text p
      → Kept answer
      → Agrees a rest m p.0 p.1 text answer run
      → ((q : SmartString × Heap) → Sound rest m (settled text answer) q → Succeeds a Q (next q))
      → Succeeds a Q (caught run next)
  settled-Sound text p next none run sound kept agrees continue = rw agrees (continue p sound)
  settled-Sound text p next (some (text', reply)) run sound kept agrees continue =
      answered-Sound text text' p next reply run sound kept continue agrees

  -- For every list of actions whose strings and characters are valid, on a string that holds a
  -- valid UTF-8 text and in the eager mode is inline exactly when its text fits, with the text and
  -- all that the actions can add below 2^62 bytes: unless the allocator answers null, the string
  -- still is so at the end and holds the text that the control ends with, where an action that
  -- panics is caught and changes nothing.
  pub perform_all-Sound :
      (actions : List Action) (text : List ℕ) (p : SmartString × Heap)
      → All IsTyped actions
      → length text + growth_all actions < request_limit
      → Sound rest m text p
      → Succeeds a (λ _ q. Sound rest m (control_all actions text) q) (perform_all a m actions p)
  unfolding perform_all control_all
  perform_all-Sound [] text p typed lim sound = returns sound
  perform_all-Sound (action ∷ actions) text p (t, ts) lim sound =
      settled-Sound text p (perform_all a m actions) (control action text) (perform a m action p)
        sound (control-IsUtf8 text sound.utf8 action t)
        (perform-Agrees a rest m p.0 p.1 text sound.rep sound.utf8 action (omega arith))
        λ q next.
          perform_all-Sound actions (settled text (control action text)) q ts
            (omega (arith, length-settled text sound.utf8 action)) next
