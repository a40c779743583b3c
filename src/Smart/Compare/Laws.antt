-- ===== src/Smart/Compare/Laws.antt =====
-- Comparison agrees with the comparison of the texts, and is an order.
use smartstring.Smart.Convert.Laws.{deref-Rep}
use smartstring.Smart.Rep.{Rep}
use smartstring.Smart.{SmartString}
use smartstring.Heap.{Heap}
use smartstring.Prelude.{ℕ, ◌≡◌, ◌↔◌, refl, ap, true, List, [], ◌∷◌, some, arith}
use Prim.Native.Nat.{Ordering}
use smartstring.Smart.Compare.{
  deref, bytes_eq, bytes_cmp, eq_str, str_eq, eq, partial_cmp_str, partial_cmp, cmp, hash,
}

pub bytes_eq_iff : (xs ys : List ℕ) → (bytes_eq xs ys ≡ true) ↔ (xs ≡ ys)
unfolding bytes_eq
bytes_eq_iff [] [] = (λ _. refl, λ _. refl)
bytes_eq_iff [] (y ∷ ys) = (λ h. cc, λ h. cc)
bytes_eq_iff (x ∷ xs) [] = (λ h. cc, λ h. cc)
bytes_eq_iff (x ∷ xs) (y ∷ ys) = ground (arith, bytes_eq_iff xs ys)

pub bytes_cmp-eq : (xs ys : List ℕ) → (bytes_cmp xs ys ≡ Ordering.eq) ↔ (xs ≡ ys)
unfolding bytes_cmp
bytes_cmp-eq [] [] = (λ _. refl, λ _. refl)
bytes_cmp-eq [] (y ∷ ys) = (λ h. cc, λ h. cc)
bytes_cmp-eq (x ∷ xs) [] = (λ h. cc, λ h. cc)
bytes_cmp-eq (x ∷ xs) (y ∷ ys) = ground (arith, bytes_cmp-eq xs ys)

pub swap : Ordering → Ordering
swap Ordering.lt = Ordering.gt
swap Ordering.eq = Ordering.eq
swap Ordering.gt = Ordering.lt

pub bytes_cmp-swap : (xs ys : List ℕ) → bytes_cmp ys xs ≡ swap (bytes_cmp xs ys)
unfolding bytes_cmp swap
bytes_cmp-swap [] [] = refl
bytes_cmp-swap [] (y ∷ ys) = refl
bytes_cmp-swap (x ∷ xs) [] = refl
bytes_cmp-swap (x ∷ xs) (y ∷ ys) = ground (arith, bytes_cmp-swap xs ys)

pub bytes_cmp_trans :
    (xs ys zs : List ℕ)
    → bytes_cmp xs ys ≡ Ordering.lt
    → bytes_cmp ys zs ≡ Ordering.lt
    → bytes_cmp xs zs ≡ Ordering.lt
unfolding bytes_cmp
bytes_cmp_trans [] [] zs h k = cc
bytes_cmp_trans [] (y ∷ ys) [] h k = cc
bytes_cmp_trans [] (y ∷ ys) (z ∷ zs) h k = refl
bytes_cmp_trans (x ∷ xs) [] zs h k = cc
bytes_cmp_trans (x ∷ xs) (y ∷ ys) [] h k = cc
bytes_cmp_trans (x ∷ xs) (y ∷ ys) (z ∷ zs) h k = ground (arith, bytes_cmp_trans xs ys zs)

pub bytes_eq_refl : (text : List ℕ) → bytes_eq text text ≡ true
bytes_eq_refl text = (bytes_eq_iff text text).1 refl

-- A string and a `str`.
module _ {rest : Heap} {text : List ℕ} {s : SmartString} {h : Heap} (r : Rep rest text s h)
    (other : List ℕ) where
  pub eq_str_lem : eq_str s other ≡ bytes_eq text other
  unfolding eq_str
  eq_str_lem = ap (λ t. bytes_eq t other) (deref-Rep r)

  pub str_eq_lem : str_eq other s ≡ bytes_eq text other
  unfolding str_eq
  str_eq_lem = eq_str_lem

-- Two strings in any heaps.
module _ {rest rest' : Heap} {text text' : List ℕ} {s t : SmartString} {h h' : Heap}
    (r : Rep rest text s h) (r' : Rep rest' text' t h') where
  pub eq-texts : eq s t ≡ bytes_eq text text'
  unfolding eq
  eq-texts = rw (deref-Rep r, deref-Rep r') refl

  pub cmp-texts : cmp s t ≡ bytes_cmp text text'
  unfolding cmp
  cmp-texts = rw (deref-Rep r, deref-Rep r') refl

  -- For two strings in any forms and heaps: they are equal exactly when their texts are, cmp
  -- answers equal exactly then, comparing them the other way round gives the opposite order,
  -- partial_cmp answers what cmp does, and a string equals its own text.
  pub cmp-eq :
      ((eq s t ≡ true) ↔ (text ≡ text'))
      × ((cmp s t ≡ Ordering.eq) ↔ (text ≡ text'))
      × (cmp t s ≡ swap (cmp s t))
      × (partial_cmp s t ≡ some (cmp s t))
      × (str_eq text s ≡ true)
  unfolding eq cmp partial_cmp partial_cmp_str str_eq eq_str
  cmp-eq =
      rw (deref-Rep r, deref-Rep r')
        (
          bytes_eq_iff text text',
          bytes_cmp-eq text text',
          bytes_cmp-swap text text',
          refl,
          bytes_eq_refl text,
        )

  -- Equal strings hash alike.
  hash-eq :
      {H : Type 0} (str_hash : List ℕ → H → H) (state : H)
      → eq s t ≡ true
      → hash str_hash s state ≡ hash str_hash t state
  unfolding hash eq
  hash-eq str_hash state same =
      ap (λ u. str_hash u state) ((bytes_eq_iff (deref s) (deref t)).0 same)

cmp_trans :
    (s t u : SmartString) → cmp s t ≡ Ordering.lt → cmp t u ≡ Ordering.lt → cmp s u ≡ Ordering.lt
unfolding cmp
cmp_trans s t u h k = bytes_cmp_trans (deref s) (deref t) (deref u) h k
