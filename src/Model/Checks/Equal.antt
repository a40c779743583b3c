-- ===== src/Model/Checks/Equal.antt =====
-- test.rs: `proptest_eq`, the comparisons of a string with `str`, `String` and another string.
use smartstring.Prelude.{ℕ, ◌<◌, ◌≡◌, ◌∙◌, refl, Bool, true, false, List, isize_max, length}
use smartstring.Run.{M, pure, assert, ◌>>=◌, ◌>>◌}
use smartstring.Heap.{Heap, Allocator}
use smartstring.Heap.Succeeds
use smartstring.Heap.Succeeds.{Succeeds, returns, gives_up}
use smartstring.Boxed.Strings.{
  RawString, text_of, drop_string, copy_string, drop_string_lem, copy_string-IsString,
}
use smartstring.Smart.Macros
use smartstring.Smart.Macros.Shrink.{drop-Rep}
use smartstring.Smart.Convert.{from_str}
use smartstring.Smart.Convert.Laws.{from_str-Made}
use smartstring.Smart.Compare.{bytes_eq, eq_str, str_eq, eq}
use smartstring.Smart.Compare.Laws.{bytes_eq_refl, eq_str_lem, str_eq_lem, eq-texts}
use smartstring.Smart.Append.Impls.{
  eq_str_ref, eq_string, string_eq, eq_str_ref_lem, eq_string_lem, string_eq_lem,
}
use smartstring.Model.Checks.{bool_eq}

module _ (a : Allocator) where
  -- `left.to_string()` in an assertion
  with_string : List ℕ → (RawString → Bool) → M Heap Bool
  with_string text test = do string ← copy_string a text; drop_string a string; pure (test string)

  -- The seven assertions of `test_eq`. The locals are dropped when they have been made, and also
  -- when one fails.
  pub test_eq : List ℕ → List ℕ → M Heap (Unit {0})
  unfolding with_string
  test_eq left right = do
    smart_left ← from_str a left
    smart_right ← from_str a right
    third ← with_string left (eq_string smart_left)
    seventh ← with_string left (λ string. string_eq string smart_left)
    Macros.drop a smart_right
    Macros.drop a smart_left
    assert (eq_str_ref smart_left left)
    assert (eq_str smart_left left)
    assert third
    assert (bool_eq (eq smart_left smart_right) (bytes_eq left right))
    assert (str_eq left smart_left)
    assert (str_eq left smart_left)
    assert seventh

bool_eq_refl : (b : Bool) → bool_eq b b ≡ true
unfolding bool_eq
bool_eq_refl true = refl
bool_eq_refl false = refl

module _ (a : Allocator) where
  with_string_lem :
      (h : Heap) (text : List ℕ) (test : RawString → Bool)
      → length text < isize_max
      → ((s : RawString) → text_of s ≡ text → test s ≡ true)
      → Succeeds a (λ b h'. (b ≡ true) × (h' ≡ h)) (with_string a text test h)
  unfolding with_string
  with_string_lem h text test lim passes =
      Succeeds.bind (copy_string-IsString a text h lim)
        λ s h' (w, _). rw (drop_string_lem a h s h' w.owned) (returns (passes s w.text_eq, refl))

  -- For any two texts shorter than 2^63 - 1 bytes: unless the allocator answers null, the seven
  -- assertions of test_eq hold, in which strings made of the texts are compared with str, &str,
  -- String and each other, and every string and String that it made has been freed.
  pub test_eq-frees :
      (rest : Heap) (left right : List ℕ)
      → length left < isize_max
      → length right < isize_max
      → Succeeds a (λ _ h. h ≡ rest) (test_eq a left right rest)
  unfolding test_eq
  test_eq-frees rest left right l r = Succeeds.bind (from_str-Made a rest left l) λ s h (rep, _).
      Succeeds.bind (from_str-Made a h right r) λ t h' (rep', _).
        Succeeds.bind
          (with_string_lem h' left (eq_string s) l
            λ string e. eq_string_lem rep string ∙ same_text string e)
          λ b h1 (third, same).
            Succeeds.bind
              (with_string_lem h1 left (λ string. string_eq string s) l
                λ string e. string_eq_lem rep string ∙ same_text string e)
              λ c h2 (seventh, same').
                rw
                  (
                    same' ∙ same,
                    drop-Rep a h right t h' rep',
                    drop-Rep a rest left s h rep,
                    eq_str_ref_lem rep left,
                    eq_str_lem rep left,
                    str_eq_lem rep left,
                    eq-texts rep rep',
                    bytes_eq_refl left,
                    bool_eq_refl (bytes_eq left right),
                    third,
                    seventh,
                  )
                  (returns refl)
    where
      same_text :
          (string : RawString) → text_of string ≡ left → bytes_eq left (text_of string) ≡ true
      same_text string e = rw e (bytes_eq_refl left)
