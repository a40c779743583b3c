-- ===== src/Boxed/Hangs.antt =====
-- The loop of `ensure_capacity` in any number of rounds, and the wrap of `cap`.
use Prim.Native.Nat.{◌∣◌}
use native.Mathlib.Nat.{
  pow-suc, dvd-mod_iff, dvd-mul_right, mul-dvd-mul, dvd_refl, dvd_iff_mod-eq-zero, one-dvd,
  le_of_dvd,
}
use smartstring.Prelude.{
  ℕ, zero, suc, ◌*◌, ◌^◌, ◌%◌, ◌≤◌, ◌<◌, ◌≡◌, ◌⊎◌, inl, inr, refl, none, some, arith, ltb, ltb→lt,
  umul, true, ap, Bool-cases, Option-cases, usize_mod,
}
use smartstring.Boxed.{grown_capacity, doublings}

-- The loop goes on for ever.
abbrev pub Hangs : ℕ → ℕ → Type 0
Hangs cap target = (fuel : ℕ) → grown_capacity fuel cap target ≡ none

next_round : (cap target : ℕ) → cap < target → Hangs (umul cap 2) target → Hangs cap target
unfolding grown_capacity
next_round cap target more on zero = refl
next_round cap target more on (suc fuel) =
    let again : ltb cap target ≡ true = ground arith in rw again (on fuel)

zero-Hangs : (target : ℕ) → 0 < target → Hangs 0 target
unfolding grown_capacity
zero-Hangs target pos zero = refl
zero-Hangs target pos (suc fuel) =
    let again : ltb 0 target ≡ true = ground arith in rw again (zero-Hangs target pos fuel)

-- A capacity that `d` divides, where `d` doubled `k` times is the size of the address space.
none-Hangs :
    (k d cap target : ℕ)
    → d * 2 ^ k ≡ usize_mod
    → d ∣ cap
    → cap < usize_mod
    → 0 < target
    → grown_capacity k cap target ≡ none
    → Hangs cap target
unfolding grown_capacity
none-Hangs zero d cap target total div lim pos e =
    let whole : d ≡ usize_mod = omega (arith, total) in
    let rest : cap % usize_mod ≡ 0 = (dvd_iff_mod-eq-zero usize_mod).0 (rw whole at div) in
    let wrapped : 0 ≡ cap = omega (arith, rest) in rw (← wrapped) (zero-Hangs target pos)
none-Hangs (suc k) d cap target total div lim pos e = elim (Bool-cases (ltb cap target)) [
  | inl more ↦
      let total' : d * 2 * 2 ^ k ≡ usize_mod =
        omega (arith, total, ap (λ (t : ℕ). d * t) (pow-suc 2 k)) in
      let part : d * 2 ∣ usize_mod = rw (← total') (dvd-mul_right (d * 2) (2 ^ k)) in
      next_round cap target (ltb→lt cap target more) (
        none-Hangs k (d * 2) (umul cap 2) target total'
          ((dvd-mod_iff (d * 2) part).1 (mul-dvd-mul d 2 div (dvd_refl 2))) (omega arith) pos
          (rw more at e))
  | inr stop ↦ cc (rw stop at e)
]

-- For every capacity of a machine word and every positive request, 64 rounds of the doubling loop
-- decide: they find a capacity, or the loop finds none in any number of rounds.
pub doublings-decide :
    (cap target : ℕ)
    → cap < usize_mod
    → 0 < target
    → ((found : ℕ) × (grown_capacity doublings cap target ≡ some found)) ⊎ Hangs cap target
doublings-decide cap target lim pos = elim (Option-cases (grown_capacity doublings cap target)) [
  | inl e ↦ inr (none-Hangs 64 1 cap target refl (one-dvd cap) lim pos e)
  | inr (found, e) ↦ inl (found, e)
]

-- From a capacity that is a power of two, at most 2^63, the doubling loop finds no capacity in any
-- number of rounds for a request above 2^63: the capacity wraps to zero and stays there.
pub power-Hangs :
    (left k target : ℕ) → 2 ^ k * 2 ^ left ≡ 2 ^ 63 → 2 ^ 63 < target → Hangs (2 ^ k) target
power-Hangs zero k target e big =
    let wraps : 0 ≡ umul (2 ^ k) 2 = omega (arith, e) in
    next_round (2 ^ k) target (omega (arith, e)) (rw (← wraps) (zero-Hangs target (omega arith)))
power-Hangs (suc left) k target e big =
    let e' : 2 ^ suc k * 2 ^ left ≡ 2 ^ 63 = omega (
      arith,
      e,
      ap (λ (t : ℕ). t * 2 ^ left) (pow-suc 2 k),
      ap (λ (t : ℕ). 2 ^ k * t) (pow-suc 2 left),
    ) in
    let part : 2 ^ suc k ∣ 2 ^ 63 = rw (← e') (dvd-mul_right (2 ^ suc k) (2 ^ left)) in
    let below : 2 ^ suc k ≤ 2 ^ 63 = le_of_dvd (omega arith) part in
    let doubled : 2 ^ suc k ≡ umul (2 ^ k) 2 = omega (arith, below, pow-suc 2 k) in
    next_round (2 ^ k) target (omega (arith, below, pow-suc 2 k))
      (rw (← doubled) (power-Hangs left (suc k) target e' big))
