-- ===== src/Prelude/Words.antt =====
-- Machine integers: a `u8` and a 64-bit `usize` as native numbers, with the wrap of a release build.
use Prim.Native.Nat.{ℕ, ◌+◌, ◌-◌, ◌*◌, ◌%◌, ◌^◌, ◌≤◌, ◌<◌}
use mathlib.Core.Path.{◌≡◌}
use native.Mathlib.Omega.{arith}

abbrev pub usize_mod : ℕ
usize_mod = 2 ^ 64

-- `isize::MAX`, the bound on the size of any Rust object.
abbrev pub isize_max : ℕ
isize_max = 2 ^ 63 - 1

abbrev pub uadd : ℕ → ℕ → ℕ
uadd a b = (a + b) % usize_mod

abbrev pub usub : ℕ → ℕ → ℕ
usub a b = (a + usize_mod - b) % usize_mod

abbrev pub umul : ℕ → ℕ → ℕ
umul a b = (a * b) % usize_mod

pub uadd-eq : (a b : ℕ) → a + b < usize_mod → uadd a b ≡ a + b
uadd-eq a b h = omega arith

pub usub-eq : (a b : ℕ) → b ≤ a → a < usize_mod → usub a b ≡ a - b
usub-eq a b h k = omega arith
