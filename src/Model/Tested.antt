-- ===== src/Model/Tested.antt =====
-- test.rs: `Constructor` and `test_everything`.
use smartstring.Prelude.{ℕ, ◌+◌, ◌≤◌, ◌<◌, ◌≡◌, refl, List, [], arith, length, All, isize_max}
use smartstring.Run.{Run, M, done, panicked, aborted, undefined, diverged, panic, ◌>>=◌, and_then}
use smartstring.Heap.{Heap, Allocator}
use smartstring.Heap.Succeeds
use smartstring.Heap.Succeeds.{Succeeds, returns, gives_up}
use smartstring.Utf8.{IsScalar, IsUtf8, encode}
use smartstring.Utf8.Boundary.{IsUtf8-nil}
use smartstring.Boxed.{StdString}
use smartstring.Boxed.Grow.{request_limit}
use smartstring.Smart.{SmartString, Mode, is_inline}
use smartstring.Smart as Smart
use smartstring.Smart.Rep.{new-Rep, is_inline-new}
use smartstring.Smart.Macros.{drop}
use smartstring.Smart.Macros.Shrink.{drop-Rep}
use smartstring.Smart.Convert as Convert
use smartstring.Smart.Convert.Laws.{from_string-Made, from_str-Made}
use smartstring.Smart.Methods as Methods
use smartstring.Smart.Methods.Extends.{from_iter-Rep}
use smartstring.Model.{Action}
use smartstring.Model.Utf8.{IsTyped}
use smartstring.Model.Runs.{growth_all, Sound}
use smartstring.Model.Checks.{tested}
use smartstring.Model.Checks.Passes.{tested-Sound}

pub data Constructor : Type 0 where
  new : Constructor
  from_string : StdString → Constructor
  from_string_slice : StdString → Constructor
  from_chars : List ℕ → Constructor

-- What a `String` is: its text is valid and within its capacity.
pub record IsString (string : StdString) : Type 0 where
  pub utf8 : IsUtf8 string.text
  pub fits : length string.text ≤ string.capacity
  pub addressable : string.capacity < isize_max

abbrev IsConstructor : Constructor → Type 0
IsConstructor new = Unit {0}
IsConstructor (from_string string) = IsString string
IsConstructor (from_string_slice string) = IsString string
IsConstructor (from_chars chars) = All IsScalar chars

-- The control that a constructor makes.
abbrev pub constructed : Constructor → List ℕ
constructed new = []
constructed (from_string string) = string.text
constructed (from_string_slice string) = string.text
constructed (from_chars chars) = encode chars

module _ (a : Allocator) where
  pub construct : Constructor → M Heap SmartString
  construct new = λ h. done Smart.new h
  construct (from_string string) = Convert.from_string a string
  construct (from_string_slice string) = Convert.from_str a string.text
  construct (from_chars chars) = Methods.from_iter a chars

  -- The subject goes out of scope.
  dropped : Run (SmartString × Heap) (Unit {0}) → Run Heap (Unit {0})
  dropped (done x (s, h)) = drop a s h
  dropped (panicked (s, h)) = and_then (drop a s h) (λ _. panic)
  dropped (aborted q) = aborted q
  dropped undefined = undefined
  dropped diverged = diverged

  pub test_everything : Mode → Constructor → List Action → M Heap (Unit {0})
  unfolding construct dropped
  test_everything m constructor actions = do
    subject ← construct constructor
    λ h. dropped (tested a m actions (constructed constructor) (subject, h))

module _ (a : Allocator) (rest : Heap) (m : Mode) where
  -- Each constructor, given a valid String or scalar values and a text below 2^62 bytes: unless
  -- the allocator answers null, the new string holds the text of the control, valid UTF-8, and in
  -- the eager mode is inline exactly when the text fits.
  pub construct-Sound :
      (constructor : Constructor)
      → IsConstructor constructor
      → length (constructed constructor) < request_limit
      → Succeeds a
          (λ s h. Sound rest m (constructed constructor) (s, h))
          (construct a constructor rest)
  unfolding construct
  construct-Sound new t lim =
      returns (record { rep = new-Rep rest; utf8 = IsUtf8-nil; tight = λ eager. is_inline-new })
  construct-Sound (from_string string) t lim =
      Succeeds.mono (from_string-Made a rest string t.fits t.addressable)
        λ s h (rep, place). record { rep = rep; utf8 = t.utf8; tight = λ eager. place }
  construct-Sound (from_string_slice string) t lim =
      Succeeds.mono (from_str-Made a rest string.text (omega arith))
        λ s h (rep, place). record { rep = rep; utf8 = t.utf8; tight = λ eager. place }
  construct-Sound (from_chars chars) t lim =
      Succeeds.mono (from_iter-Rep a rest chars lim) λ s h (rep, place). record {
        rep = rep;
        utf8 = record { chars = chars; scalars = t; encoded = refl };
        tight = λ eager. place;
      }

  dropped-frees :
      {text : List ℕ} {run : Run (SmartString × Heap) (Unit {0})}
      → Succeeds a (λ _ q. Sound rest m text q) run
      → Succeeds a (λ _ h. h ≡ rest) (dropped a run)
  unfolding dropped
  dropped-frees {text} (returns {s = q} sound) =
      rw (drop-Rep a rest text q.0 q.1 sound.rep) (returns refl)
  dropped-frees (gives_up e) = gives_up e

  -- For every constructor and every list of actions whose strings and characters are valid, in
  -- either mode, with the text and all that the actions can add below 2^62 bytes: unless the
  -- allocator answers null, the whole property test passes and leaves the heap as it found it. It
  -- panics nowhere but in the actions that have to, every reply is that of the control, and the
  -- assertions about length, text, form and order hold at the start and after each action.
  pub test_everything-frees :
      (constructor : Constructor) (actions : List Action)
      → IsConstructor constructor
      → All IsTyped actions
      → length (constructed constructor) + growth_all actions < request_limit
      → Succeeds a (λ _ h. h ≡ rest) (test_everything a m constructor actions rest)
  unfolding test_everything
  test_everything-frees constructor actions t ts lim =
      Succeeds.bind (construct-Sound constructor t (omega arith)) λ s h sound.
        dropped-frees (tested-Sound a rest m actions (constructed constructor) (s, h) ts lim sound)
