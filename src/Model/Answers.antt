-- ===== src/Model/Answers.antt =====
-- How a run answers an action, beside its control.
use smartstring.Prelude.{
  ℕ, ◌≤◌, ◌≡◌, ◌∙◌, refl, ap, Bool, true, List, Option, none, some, arith, length, leb,
}
use smartstring.Run.{Run, panicked}
use smartstring.Heap.{Heap, Allocator}
use smartstring.Heap.Succeeds
use smartstring.Heap.Succeeds.{Succeeds, returns}
use smartstring.Utf8.{len_utf8}
use smartstring.Inline.{max_inline}
use smartstring.Smart.{SmartString, Mode, dealloc, is_inline}
use smartstring.Smart.Rep.{Rep}
use smartstring.Smart.Macros.{Method}
use smartstring.Smart.Macros.Grow.{Post}
use smartstring.Smart.Methods.Laws.{grown_inline, shrunk_inline}
use smartstring.Model.{Action, Reply, push, push_str, insert, insert_str, replace_range, reply}

-- How much longer an action can make a text.
abbrev pub growth : Action → ℕ
growth (push ch) = len_utf8 ch
growth (push_str string) = length string
growth (insert index ch) = len_utf8 ch
growth (insert_str index string) = length string
growth (replace_range b src) = length src
growth _ = 0

-- A string of the eager mode is inline exactly when its text fits.
abbrev pub IsTight : Mode → Bool → List ℕ → Type 0
IsTight m here text = dealloc m ≡ true → here ≡ leb (length text) max_inline

-- The reply is the control's, the string holds the control's text, and it is tight if it was.
pub record Answer (rest : Heap) (m : Mode) (here : Bool) (text text' : List ℕ) (x : Reply)
    (y : Reply) (p : SmartString × Heap) : Type 0 where
  pub result : y ≡ x
  pub rep : Rep rest text' p.0 p.1
  pub tight : IsTight m here text → IsTight m (is_inline p.0) text'

module _ (a : Allocator) (rest : Heap) (m : Mode) (s : SmartString) (h : Heap) where
  -- A run agrees with what the control does: where the control panics so does the run, and leaves
  -- the string and the heap as they were.
  abbrev pub Agrees : List ℕ → Option (List ℕ × Reply) → Run (SmartString × Heap) Reply → Type 0
  Agrees text none run = run ≡ panicked (s, h)
  Agrees text (some (text', x)) run = Succeeds a (Answer rest m (is_inline s) text text' x) run

  pub answered :
      {A : Type 0} {inside : Bool} (text text' : List ℕ) (x : A) (f : A → Reply) (method : Method A)
      → (IsTight m (is_inline s) text → IsTight m inside text')
      → Succeeds a (Post rest text' x inside) (method (s, h))
      → Succeeds a (Answer rest m (is_inline s) text text' (f x)) (reply f method (s, h))
  answered text text' x f method keeps run = Succeeds.bind run λ y p post. returns (record {
    result = ap f post.result;
    rep = post.rep;
    tight = λ t eager. post.place ∙ keeps t eager;
  })

-- Operations that may grow the text, and those that only shrink it, keep a string tight.
module _ (m : Mode) (here : Bool) (text text' : List ℕ) where
  pub grown-IsTight :
      length text ≤ length text' → IsTight m here text → IsTight m (grown_inline here text') text'
  grown-IsTight le t eager = let e = t eager in rw e (ground (arith, le))

  pub shrunk-IsTight :
      length text' ≤ length text
      → IsTight m here text
      → IsTight m (shrunk_inline m here text') text'
  shrunk-IsTight le t eager = let e = t eager in rw (e, eager) (ground (arith, le))

pub reply-panics :
    {A : Type 0} (s : SmartString) (h : Heap) (f : A → Reply) (method : Method A)
    → method (s, h) ≡ panicked (s, h)
    → reply f method (s, h) ≡ panicked (s, h)
reply-panics s h f method e = rw e refl
