-- ===== src/Bytes.antt =====
-- Words in memory: a `usize` as eight bytes, lowest first (`target_endian = "little"`).
use smartstring.Prelude.{
  All, ◌++◌, take, drop, ℕ, zero, suc, ◌+◌, ◌*◌, ◌/◌, ◌%◌, ◌^◌, ◌<◌, ◌≡◌, refl, ap, List, [], ◌∷◌,
  arith, length,
}
use native.Mathlib.Nat.{pow-suc}
use native.Mathlib.Bridge.{le_prop}

pub to_le : ℕ → ℕ → List ℕ
to_le zero n = []
to_le (suc k) n = (n % 256) ∷ to_le k (n / 256)

pub from_le : List ℕ → ℕ
from_le [] = 0
from_le (b ∷ bs) = b + 256 * from_le bs

pub length-to_le : (k n : ℕ) → length (to_le k n) ≡ k
unfolding to_le
length-to_le zero n = refl
length-to_le (suc k) n = ap suc (length-to_le k (n / 256))

pub from_le-to_le : (k n : ℕ) → n < 256 ^ k → from_le (to_le k n) ≡ n
unfolding from_le to_le
from_le-to_le zero n h = omega arith
from_le-to_le (suc k) n h =
    let e : 256 ^ suc k ≡ 256 ^ k * 256 = pow-suc 256 k in
    omega (arith, from_le-to_le k (n / 256) (omega (arith, e)))

-- A word is odd if its first byte is.
pub from_le_parity : (b : ℕ) (bs : List ℕ) → from_le (b ∷ bs) % 2 ≡ b % 2
unfolding from_le
from_le_parity b bs = omega arith

-- Memory is made of bytes.
abbrev pub AreBytes : List ℕ → Type 0
AreBytes = All (λ b. b < 256)

pub to_le-from_le : (bs : List ℕ) → AreBytes bs → to_le (length bs) (from_le bs) ≡ bs
unfolding from_le to_le
to_le-from_le [] all = refl
to_le-from_le (b ∷ bs) (lt, all) =
    let low : (b + 256 * from_le bs) % 256 ≡ b = omega arith in
    let high : (b + 256 * from_le bs) / 256 ≡ from_le bs = omega arith in
    rw (low, high) (ap (λ t. b ∷ t) (to_le-from_le bs all))

pub from_le-lt : (bs : List ℕ) → AreBytes bs → from_le bs < 256 ^ length bs
unfolding from_le
from_le-lt [] all = omega arith
from_le-lt (b ∷ bs) (lt, all) =
    let e : 256 ^ suc (length bs) ≡ 256 ^ length bs * 256 = pow-suc 256 (length bs) in
    omega (arith, e, from_le-lt bs all)

pub to_le-AreBytes : (k n : ℕ) → AreBytes (to_le k n)
unfolding to_le
to_le-AreBytes zero n = tt
to_le-AreBytes (suc k) n = (omega arith, to_le-AreBytes k (n / 256))

pub AreBytes-append : (xs ys : List ℕ) → AreBytes xs → AreBytes ys → AreBytes (xs ++ ys)
AreBytes-append [] ys all more = more
AreBytes-append (x ∷ xs) ys (lt, all) more = (lt, AreBytes-append xs ys all more)

pub AreBytes-take : (n : ℕ) (xs : List ℕ) → AreBytes xs → AreBytes (take n xs)
AreBytes-take zero xs all = tt
AreBytes-take (suc n) [] all = tt
AreBytes-take (suc n) (x ∷ xs) (lt, all) = (lt, AreBytes-take n xs all)

pub AreBytes-drop : (n : ℕ) (xs : List ℕ) → AreBytes xs → AreBytes (drop n xs)
AreBytes-drop zero xs all = all
AreBytes-drop (suc n) [] all = tt
AreBytes-drop (suc n) (x ∷ xs) (lt, all) = AreBytes-drop n xs all

pub AreBytes-prop : (xs : List ℕ) → IsProp (AreBytes xs)
AreBytes-prop [] = hlevel
AreBytes-prop (x ∷ xs) = hlevel (le_prop {n = suc x} {m = 256}, AreBytes-prop xs)
