-- ===== src/Smart/Methods/Iterators.antt =====
-- `extend` and `from_iter` over an iterator of a user, whose `next` may panic: `none` is such a call.
use smartstring.Prelude.{
  ℕ, ◌+◌, ◌<◌, ◌≡◌, ◌∙◌, refl, ap, List, [], ◌∷◌, ◌++◌, Option, none, some, arith, length,
  length-append, append_assoc, append-nil,
}
use smartstring.Run.{Run, M, pure, panic, ◌>>◌, and_then}
use smartstring.Heap.{Heap, Allocator}
use mathlib.Core.Path.{fun_ext}
use smartstring.Heap.Unwinds
use smartstring.Heap.Unwinds.{Unwinds, unwinds, gives_up}
use smartstring.Utf8.{encode_utf8, encode, len_utf8}
use smartstring.Utf8.Boundary.{length-encode_cons, encode_cons, encode_nil}
use smartstring.Utf8.Laws.{length-encode_utf8}
use smartstring.Boxed.Grow.{request_limit}
use smartstring.Smart.{SmartString, new}
use smartstring.Smart.Rep.{Rep, new-Rep}
use smartstring.Smart.Macros.{Method}
use smartstring.Smart.Macros.Shrink.{drop-Rep}
use smartstring.Smart.Methods.{push, extend_chars, from_iter, local}
use smartstring.Smart.Methods.Laws.{push-Post}

module _ (a : Allocator) where
  -- `impl Extend<char>`
  pub extend_iter : List (Option ℕ) → Method (Unit {0})
  extend_iter [] = pure tt
  extend_iter (none ∷ iter) = panic
  extend_iter (some ch ∷ iter) = do push a ch; extend_iter iter

  -- `impl FromIterator<char>`
  pub collect : List (Option ℕ) → M Heap SmartString
  unfolding extend_iter
  collect iter h = local a (extend_iter iter (new, h))

-- An iterator that gives some characters and has not panicked so far.
abbrev pub gives : List ℕ → List (Option ℕ) → List (Option ℕ)
gives [] iter = iter
gives (ch ∷ chars) iter = some ch ∷ gives chars iter

module _ (a : Allocator) where
  -- An iterator that does not panic is the list of its characters.
  extend_iter-gives :
      (chars : List ℕ) (p : SmartString × Heap)
      → extend_iter a (gives chars []) p ≡ extend_chars a chars p
  unfolding extend_iter extend_chars
  extend_iter-gives [] p = refl
  extend_iter-gives (ch ∷ chars) p =
      ap (and_then (push a ch p)) (fun_ext λ x. fun_ext λ q. extend_iter-gives chars q)

  collect-gives : (chars : List ℕ) (h : Heap) → collect a (gives chars []) h ≡ from_iter a chars h
  unfolding collect from_iter
  collect-gives chars h = ap (local a) (extend_iter-gives chars (new, h))

  -- Where the iterator panics, the string holds the characters before.
  extend_iter-Unwinds :
      (rest : Heap) (chars text : List ℕ) (iter : List (Option ℕ)) (s : SmartString) (h : Heap)
      → Rep rest text s h
      → length text + length (encode chars) < request_limit
      → Unwinds a
          (λ p. Rep rest (text ++ encode chars) p.0 p.1)
          (extend_iter a (gives chars (none ∷ iter)) (s, h))
  unfolding extend_iter
  extend_iter-Unwinds rest [] text iter s h r lim =
      let same : text ++ encode [] ≡ text = ap (λ t. text ++ t) encode_nil ∙ append-nil text in
      rw same (unwinds r)
  extend_iter-Unwinds rest (ch ∷ chars) text iter s h r lim =
      let size : length text + len_utf8 ch < request_limit =
        omega (arith, length-encode_cons ch chars) in
      rw (encode_cons ch chars, ← append_assoc text (encode_utf8 ch) (encode chars))
        (Unwinds.bind a (push-Post a rest text s h r ch size) λ _ p post.
          extend_iter-Unwinds rest chars (text ++ encode_utf8 ch) iter p.0 p.1 post.rep (
            omega (
              arith,
              length-encode_cons ch chars,
              length-append text (encode_utf8 ch),
              length-encode_utf8 ch,
            )))

  dropped :
      (rest : Heap) (text : List ℕ) {r : Run (SmartString × Heap) (Unit {0})}
      → Unwinds a (λ p. Rep rest text p.0 p.1) r
      → Unwinds a (λ h. h ≡ rest) (local a r)
  unfolding local
  dropped rest text (unwinds {s = p} r) = rw (drop-Rep a rest text p.0 p.1 r) (unwinds refl)
  dropped rest text (gives_up e) = gives_up e

  -- Where an iterator panics after it has given some characters whose encoding is below 2^62
  -- bytes, collecting it panics, unless the allocator has answered null before, and the heap is as
  -- before: the string that was being built has been freed.
  pub collect-Unwinds :
      (rest : Heap) (chars : List ℕ) (iter : List (Option ℕ))
      → length (encode chars) < request_limit
      → Unwinds a (λ h. h ≡ rest) (collect a (gives chars (none ∷ iter)) rest)
  unfolding collect
  collect-Unwinds rest chars iter lim =
      dropped rest (encode chars)
        (extend_iter-Unwinds rest chars [] iter new rest (new-Rep rest) (omega arith))
