-- ===== src/Marker.antt =====
-- marker_byte.rs: the byte that holds an inline string's length and the discriminant bit.
use Prim.Native.Nat.{bit_and, bit_or}
use smartstring.Prelude.{
  ℕ, zero, suc, ◌+◌, ◌*◌, ◌/◌, ◌%◌, ◌<◌, ◌≡◌, refl, Bool, true, false, ◌&&◌, not, arith, ◌==◌,
  ==_iff, if◌then◌else◌,
}

pub data Discriminant : Type 0 where
  boxed inline : Discriminant

pub from_bit : Bool → Discriminant
from_bit b = if b then inline else boxed

pub from_bit-true : from_bit true ≡ inline
unfolding from_bit
from_bit-true = refl

pub from_bit-false : from_bit false ≡ boxed
unfolding from_bit
from_bit-false = refl

bit : Discriminant → ℕ
bit boxed = 0
bit inline = 1

-- `struct Marker(u8)`
pub record Marker : Type 0 where
  pub byte : ℕ

-- `data << 1 | discriminant.bit()`, on a `u8`
assemble : Discriminant → ℕ → ℕ
unfolding bit
assemble d size = bit_or (size * 2 % 256) (bit d)

pub empty : Marker
unfolding assemble
empty = record { byte = assemble inline 0 }

pub new_inline : ℕ → Marker
unfolding assemble
new_inline size = record { byte = assemble inline size }

pub discriminant : Marker → Discriminant
unfolding from_bit
discriminant m = from_bit (not (bit_and m.byte 1 == 0))

-- `self.0 >> 1`
pub size_of : Marker → ℕ
size_of m = m.byte / 2

pub set_size : Marker → ℕ → Marker
unfolding assemble discriminant
set_size m size = record { byte = assemble (discriminant m) size }

-- Statements about one byte are checked at each of its values.
below : ℕ → (ℕ → Bool) → Bool
below zero p = true
below (suc n) p = p n && below n p

below→all : (n : ℕ) (p : ℕ → Bool) (x : ℕ) → below n p ≡ true → x < n → p x ≡ true
unfolding below
below→all zero p x h lt = absurd (omega arith)
below→all (suc n) p x h lt = ground (arith, below→all n p x)

set_low_bit : (x : ℕ) → x < 128 → bit_or (x * 2 % 256) 1 ≡ 2 * x + 1
unfolding below
set_low_bit x h = (==_iff _ _).0 (below→all 128 (λ y. bit_or (y * 2 % 256) 1 == 2 * y + 1) x refl h)

set_no_bit : (x : ℕ) → x < 128 → bit_or (x * 2 % 256) 0 ≡ 2 * x
unfolding below
set_no_bit x h = (==_iff _ _).0 (below→all 128 (λ y. bit_or (y * 2 % 256) 0 == 2 * y) x refl h)

low_bit : (x : ℕ) → x < 256 → bit_and x 1 ≡ x % 2
unfolding below
low_bit x h = (==_iff _ _).0 (below→all 256 (λ y. bit_and y 1 == y % 2) x refl h)

-- The byte of an inline marker is odd, whatever the size.
pub new_inline_byte : (n : ℕ) → n < 128 → (new_inline n).byte ≡ 2 * n + 1
unfolding new_inline
new_inline_byte n h = set_low_bit n h

pub size_of-new_inline : (n : ℕ) → n < 128 → size_of (new_inline n) ≡ n
unfolding size_of
size_of-new_inline n h = omega (arith, new_inline_byte n h)

pub empty_lem : empty ≡ new_inline 0
unfolding empty new_inline
empty_lem = refl

discriminant-new_inline : (n : ℕ) → n < 128 → discriminant (new_inline n) ≡ inline
unfolding discriminant
discriminant-new_inline n h = ground (arith, new_inline_byte n h, low_bit ((new_inline n).byte))

size_of-assemble : (d : Discriminant) (n : ℕ) → n < 128 → assemble d n / 2 ≡ n
unfolding assemble
size_of-assemble boxed n h = omega (arith, set_no_bit n h)
size_of-assemble inline n h = omega (arith, set_low_bit n h)

discriminant-assemble :
    (d : Discriminant) (n : ℕ) → n < 128 → discriminant (record { byte = assemble d n }) ≡ d
unfolding assemble discriminant
discriminant-assemble boxed n h = ground (arith, set_no_bit n h, low_bit (bit_or (n * 2 % 256) 0))
discriminant-assemble inline n h = ground (arith, set_low_bit n h, low_bit (bit_or (n * 2 % 256) 1))

-- A size below 128 that is stored in a marker is read back, and the discriminant stays.
pub set_size_lem :
    (m : Marker) (n : ℕ)
    → n < 128
    → (size_of (set_size m n) ≡ n) × (discriminant (set_size m n) ≡ discriminant m)
unfolding set_size size_of
set_size_lem m n h =
    (size_of-assemble (discriminant m) n h, discriminant-assemble (discriminant m) n h)

pub set_size-new_inline : (k n : ℕ) → k < 128 → n < 128 → set_size (new_inline k) n ≡ new_inline n
unfolding set_size
set_size-new_inline k n h l = rw (discriminant-new_inline k h) (unfold new_inline in refl)
