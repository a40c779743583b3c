-- ===== src/Boxed/Grow.antt =====
-- The loop of `ensure_capacity`: it ends, and the capacity that it finds.
use native.Mathlib.Nat.{pow-suc}
use smartstring.Prelude.{
  ℕ, zero, suc, ◌*◌, ◌^◌, ◌≤◌, ◌<◌, ◌≡◌, ◌⊎◌, inl, inr, refl, some, arith, ltb, ltb→lt, umul, true,
  false, ◌∙◌, ap, Bool-cases,
}
use smartstring.Boxed.{grown_capacity, doublings}

-- A capacity request that the address space can meet.
abbrev pub request_limit : ℕ
request_limit = 2 ^ 62

-- The capacity stays as it is if it suffices, and else ends below twice the request.
pub record Grown (cap target found : ℕ) : Type 0 where
  pub enough : target ≤ found
  pub kept : cap ≤ found
  pub bounded : (found ≡ cap) ⊎ (found < 2 * target)

round :
    (fuel cap target : ℕ)
    → ltb cap target ≡ true
    → grown_capacity (suc fuel) cap target ≡ grown_capacity fuel (umul cap 2) target
unfolding grown_capacity
round fuel cap target more = rw more

further : (fuel cap target : ℕ) → target ≤ cap * 2 ^ suc fuel → target ≤ cap * 2 * 2 ^ fuel
further fuel cap target h = omega (arith, ap (λ (t : ℕ). cap * t) (pow-suc 2 fuel))

no_round :
    (fuel cap target : ℕ)
    → ltb cap target ≡ false
    → (found : ℕ) × (grown_capacity (suc fuel) cap target ≡ some found) × Grown cap target found
unfolding grown_capacity
no_round fuel cap target stop =
    (cap, rw stop, record { enough = ground arith; kept = omega arith; bounded = inl refl })

-- One round, with what the rounds after it find.
one_round :
    (fuel cap target : ℕ)
    → ltb cap target ≡ true
    → target < request_limit
    → ((found : ℕ) × (grown_capacity (suc fuel) (cap * 2) target ≡ some found)
        × Grown (cap * 2) target found)
    → (found : ℕ) × (grown_capacity (suc (suc fuel)) cap target ≡ some found)
      × Grown cap target found
one_round fuel cap target more lim (found, e, g) =
    let wrap : umul cap 2 ≡ cap * 2 = omega (arith, ltb→lt cap target more) in
    (
      found,
      round (suc fuel) cap target more ∙ ap (λ c. grown_capacity (suc fuel) c target) wrap ∙ e,
      record {
        enough = g.enough;
        kept = omega (arith, g.kept);
        bounded = elim g.bounded [
          | inl same ↦ inr (omega (arith, ltb→lt cap target more))
          | inr below ↦ inr below
        ];
      },
    )

grown_capacity-Grown :
    (fuel cap target : ℕ)
    → target ≤ cap * 2 ^ fuel
    → target < request_limit
    → (found : ℕ) × (grown_capacity (suc fuel) cap target ≡ some found) × Grown cap target found
grown_capacity-Grown zero cap target reach lim = no_round 0 cap target (ground arith)
grown_capacity-Grown (suc fuel) cap target reach lim = elim (Bool-cases (ltb cap target)) [
  | inl more ↦
      one_round fuel cap target more lim
        (grown_capacity-Grown fuel (cap * 2) target (further fuel cap target reach) lim)
  | inr stop ↦ no_round (suc fuel) cap target stop
]

-- For a positive capacity and a request below 2^62 the doubling loop ends within 64 rounds and
-- never wraps: the capacity found is at least the request and the old capacity, and is the old one
-- or below twice the request.
pub ensure-Grown :
    (cap target : ℕ)
    → 0 < cap
    → target < request_limit
    → (found : ℕ) × (grown_capacity doublings cap target ≡ some found) × Grown cap target found
ensure-Grown cap target pos lim = grown_capacity-Grown 63 cap target (omega arith) lim
