-- ===== src/Tests/Actions.antt =====
-- The theorems about the property tests at concrete inputs.
use smartstring.Prelude.{All, List, ◌∷◌, ◌≡◌, [], arith, inl}
use smartstring.Heap.Succeeds.{Succeeds}
use smartstring.Boxed.{to_string}
use smartstring.Smart.{SmartString, compact, from_inline}
use smartstring.Model.{Action, control, perform}
use smartstring.Model
use smartstring.Model.Bounds as Bounds
use smartstring.Model.Utf8.{IsTyped}
use smartstring.Model.Answers.{Agrees}
use smartstring.Model.Refines.{perform-Agrees}
use smartstring.Model.Runs.{perform_all, control_all, Sound, perform_all-Sound}
use smartstring.Model.Tested
use smartstring.Model.Tested.{
  test_everything, test_everything-frees, construct, constructed, construct-Sound, IsString,
}
use smartstring.Tests.Fixture.{
  hello_is_inline, small_allocator, no_blocks, hello, thirty, hello_inline, hello-Rep, hello-IsUtf8,
}

abbrev hello_string : SmartString
hello_string = from_inline hello_inline

abbrev some_actions : List Action
some_actions =
    Model.push_str hello
    ∷ Model.split_off 6
    ∷ Model.retain (0x65 ∷ 0x6c ∷ [])
    ∷ Model.drain (Bounds.range 0 1)
    ∷ Model.into_string
    ∷ Model.slice Bounds.full
    ∷ Model.replace_range (Bounds.inclusive 0 9) hello
    ∷ []

some_actions-IsTyped : All IsTyped some_actions
some_actions-IsTyped = (
  hello-IsUtf8,
  (tt, ((inl (omega arith), (inl (omega arith), tt)), (tt, (tt, (tt, (hello-IsUtf8, tt)))))),
)

hello-IsString : IsString (to_string hello)
hello-IsString = record { utf8 = hello-IsUtf8; fits = omega arith; addressable = omega arith }

test_everything-frees_example :
    Succeeds small_allocator
      (λ _ h. h ≡ no_blocks)
      (test_everything small_allocator compact
        (Tested.from_string (to_string hello))
        some_actions
        no_blocks)
test_everything-frees_example =
    test_everything-frees small_allocator no_blocks compact (Tested.from_string (to_string hello))
      some_actions hello-IsString some_actions-IsTyped (omega arith)

hello-Sound : Sound no_blocks compact hello (hello_string, no_blocks)
hello-Sound = record { rep = hello-Rep; utf8 = hello-IsUtf8; tight = λ eager. hello_is_inline }

perform_all-Sound_example :
    Succeeds small_allocator
      (λ _ q. Sound no_blocks compact (control_all some_actions hello) q)
      (perform_all small_allocator compact some_actions (hello_string, no_blocks))
perform_all-Sound_example =
    perform_all-Sound small_allocator no_blocks compact some_actions hello (hello_string, no_blocks)
      some_actions-IsTyped (omega arith) hello-Sound

construct-Sound_example :
    Succeeds small_allocator
      (λ s h. Sound no_blocks compact hello (s, h))
      (construct small_allocator (Tested.from_string (to_string hello)) no_blocks)
construct-Sound_example =
    construct-Sound small_allocator no_blocks compact (Tested.from_string (to_string hello))
      hello-IsString (omega arith)

perform-Agrees_example :
    Agrees small_allocator no_blocks compact hello_string no_blocks hello
      (control (Model.replace_range (Bounds.to 5) thirty) hello)
      (perform small_allocator compact
        (Model.replace_range (Bounds.to 5) thirty)
        (hello_string, no_blocks))
perform-Agrees_example =
    perform-Agrees small_allocator no_blocks compact hello_string no_blocks hello hello-Rep
      hello-IsUtf8 (Model.replace_range (Bounds.to 5) thirty) (omega arith)
