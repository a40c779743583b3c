-- ===== src/Smart/Compare.antt =====
-- Comparison and hashing: the texts are compared, whatever the forms.
pub mod Laws
pub mod Values
use smartstring.Smart.{SmartString}
use smartstring.Prelude.{
  ℕ, zero, suc, ◌+◌, ◌-◌, ◌*◌, ◌≤◌, ◌<◌, ◌≡◌, ◌∙◌, ◌↔◌, ◌⊎◌, refl, sym, ap, inl, inr, Bool, true,
  false, not, ◌&&◌, ◌||◌, List, [], ◌∷◌, ◌++◌, Option, none, some, arith, ltb, leb, ◌==◌,
  if◌then◌else◌, Bool-cases, Option-cases, length, take, drop, length-append, append_assoc,
  append-nil, All,
}
use Prim.Native.Nat.{compare, Ordering}
use smartstring.Smart.Convert.{deref}

-- `str` compares its bytes.
pub bytes_eq : List ℕ → List ℕ → Bool
bytes_eq [] [] = true
bytes_eq (x ∷ xs) (y ∷ ys) = (x == y) && bytes_eq xs ys
bytes_eq _ _ = false

pub bytes_cmp : List ℕ → List ℕ → Ordering
bytes_cmp [] [] = Ordering.eq
bytes_cmp [] (y ∷ ys) = Ordering.lt
bytes_cmp (x ∷ xs) [] = Ordering.gt
bytes_cmp (x ∷ xs) (y ∷ ys) =
    let rest = bytes_cmp xs ys in
    elim (compare x y) [
      | Ordering.lt ↦ Ordering.lt
      | Ordering.gt ↦ Ordering.gt
      | Ordering.eq ↦ rest
    ]

-- `impl PartialEq<str>`, and the impls of the other string types, which call it.
pub eq_str : SmartString → List ℕ → Bool
eq_str s other = bytes_eq (deref s) other

pub str_eq : List ℕ → SmartString → Bool
unfolding eq_str
str_eq s other = eq_str other s

-- `impl PartialEq`
pub eq : SmartString → SmartString → Bool
eq s other = bytes_eq (deref s) (deref other)

-- `impl PartialOrd<str>`
unfoldable pub partial_cmp_str : SmartString → List ℕ → Option Ordering
partial_cmp_str s other = some (bytes_cmp (deref s) other)

-- `impl PartialOrd`
pub partial_cmp : SmartString → SmartString → Option Ordering
unfolding partial_cmp_str
partial_cmp s other = partial_cmp_str s (deref other)

-- `impl Ord`
pub cmp : SmartString → SmartString → Ordering
cmp s other = bytes_cmp (deref s) (deref other)

-- `impl Hash`, `Debug` and `Display`: what the `str` does with the hasher or the formatter.
pub hash : {H : Type 0} → (List ℕ → H → H) → SmartString → H → H
hash str_hash s state = str_hash (deref s) state

pub fmt : {F R : Type 0} → (List ℕ → F → R) → SmartString → F → R
fmt str_fmt s f = str_fmt (deref s) f
