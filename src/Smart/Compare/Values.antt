-- ===== src/Smart/Compare/Values.antt =====
-- Strings up to `==`: what is left of a string when its form and its block are forgotten.
use mathlib.Core.Quot
use mathlib.Core.Quot.{Quot, Quot-set}
use native.Mathlib.Nat.{ℕ_set}
use Prim.Native.Nat.{Ordering}
use smartstring.Smart.Convert.Laws.{deref-Rep}
use smartstring.Smart.Rep.{Rep}
use smartstring.Heap.{Heap}
use smartstring.Prelude.{sym, ◌∙◌, ℕ, ◌≡◌, ◌↔◌, refl, ap, true, List}
use smartstring.Smart.{SmartString}
use smartstring.Smart.Compare.{deref, bytes_cmp, eq, cmp}
use smartstring.Smart.Compare.Laws.{bytes_eq_iff}

-- `PartialEq`
abbrev Same : SmartString → SmartString → Type 0
Same s t = eq s t ≡ true

abbrev pub Value : Type 0
Value = Quot Same

abbrev pub value_of : SmartString → Value
value_of s = Quot.mk s

deref-Same : (s t : SmartString) → Same s t → deref s ≡ deref t
unfolding eq
deref-Same s t same = (bytes_eq_iff (deref s) (deref t)).0 same

-- `deref` and `cmp` do not tell equal strings apart.
pub text : Value → List ℕ
text = Quot.lift (hlevel ℕ_set) deref deref-Same

cmp-Same : (s t u : SmartString) → Same s t → cmp s u ≡ cmp t u
unfolding cmp
cmp-Same s t u same = ap (λ b. bytes_cmp b (deref u)) (deref-Same s t same)

cmp_right-Same : (s t u : SmartString) → Same t u → cmp s t ≡ cmp s u
unfolding cmp
cmp_right-Same s t u same = ap (bytes_cmp (deref s)) (deref-Same t u same)

compare_with : SmartString → Value → Ordering
compare_with s = Quot.lift (hlevel) (cmp s) (cmp_right-Same s)

compare_with-Same :
    (s t : SmartString) → Same s t → (y : Value) → compare_with s y ≡ compare_with t y
unfolding compare_with
compare_with-Same s t same = Quot.ind (λ y. hlevel) λ u. cmp-Same s t u same

pub compare : Value → Value → Ordering
compare x y =
    Quot.lift (hlevel) (λ s. compare_with s y) (λ s t same. compare_with-Same s t same y) x

-- Two values with the same text are one.
text_injective : (x y : Value) → text x ≡ text y → x ≡ y
unfolding text
text_injective =
    Quot.ind (λ x. hlevel Quot-set)
      λ s.
        Quot.ind (λ y. hlevel Quot-set)
          λ t e. Quot.sound (unfold eq in (bytes_eq_iff (deref s) (deref t)).1 e)

compare_lem : (x y : Value) → compare x y ≡ bytes_cmp (text x) (text y)
unfolding compare compare_with text
compare_lem = Quot.ind (λ x. hlevel) λ s. Quot.ind (λ y. hlevel) λ t. unfold cmp in refl

-- The class of a string is that of the strings that it equals, and comparing classes is `cmp`.
value_of_exact : (s t : SmartString) → (value_of s ≡ value_of t) ↔ (eq s t ≡ true)
unfolding text eq
value_of_exact s t = (λ e. (bytes_eq_iff (deref s) (deref t)).1 (ap text e), Quot.sound)

compare-value_of : (s t : SmartString) → compare (value_of s) (value_of t) ≡ cmp s t
unfolding compare compare_with
compare-value_of s t = refl

-- For two strings in any forms and heaps: in the quotient of the strings by their equality, to
-- which cmp passes, their classes are the same exactly when their texts are, and comparing the
-- classes gives the bytewise comparison of the first text with the second.
pub value_of_texts :
    {rest rest' : Heap} {t t' : List ℕ} {s s' : SmartString} {h h' : Heap}
    → Rep rest t s h
    → Rep rest' t' s' h'
    → ((value_of s ≡ value_of s') ↔ (t ≡ t'))
      × (compare (value_of s) (value_of s') ≡ bytes_cmp t t')
unfolding text
value_of_texts {t = t} {t'} {s} {s'} r r' = (
  (
    λ e. sym (deref-Rep r) ∙ ap text e ∙ deref-Rep r',
    λ e. text_injective (value_of s) (value_of s') (deref-Rep r ∙ e ∙ sym (deref-Rep r')),
  ),
  compare_lem (value_of s) (value_of s') ∙ rw (deref-Rep r, deref-Rep r') refl,
)
