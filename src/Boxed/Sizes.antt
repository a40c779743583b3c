-- ===== src/Boxed/Sizes.antt =====
-- The functions of boxed.rs that allocate, at any size.
use smartstring.Prelude.{
  umul, ltb→lt, isize_max, max, ltb→lt, max, isize_max, ℕ, zero, suc, ◌≤◌, ◌<◌, ◌≡◌, ◌⊎◌, sym, inl,
  inr, List, none, some, arith, ltb, if◌then◌else◌, Bool-cases, Option-cases, length,
}
use smartstring.Heap.{Heap, Allocator}
use smartstring.Heap.Succeeds
use smartstring.Heap.Succeeds.{Succeeds, returns, gives_up}
use smartstring.Heap.{align_to-none, layout_array-none, layout_array-some}
use mathlib.Core.Option.{some-injective}
use smartstring.Heap.Settles
use smartstring.Heap.Settles.{Settles, settled, refuses, hangs}
use smartstring.Boxed.{
  BoxedString, deref, layout_for, realloc, ensure_capacity, grown_capacity, doublings, from_str,
  new, alloc, minimal_capacity,
}
use smartstring.Boxed.Wf.{IsWf}
use smartstring.Boxed.Blocks.{Owned, Stored, realloc-Stored, from_str-Stored}

-- What the loop finds is the capacity that it began with, or one that it grew to.
grown_capacity-enough :
    (fuel cap target found : ℕ)
    → grown_capacity fuel cap target ≡ some found
    → (target ≤ found) × ((found ≡ cap) ⊎ (cap < target))
unfolding grown_capacity
grown_capacity-enough zero cap target found e = cc e
grown_capacity-enough (suc fuel) cap target found e = elim (Bool-cases (ltb cap target)) [
  | inl more ↦
      let (enough, _) = grown_capacity-enough fuel (umul cap 2) target found (rw more at e) in
      (enough, inr (ltb→lt cap target more))
  | inr stop ↦
      let same : cap ≡ found = some-injective cap found (rw stop at e) in
      (ground (arith, same), inl (sym same))
]

layout_for-none : (cap : ℕ) → isize_max ≤ cap → layout_for cap ≡ none
unfolding layout_for
layout_for-none cap h = elim (Bool-cases (ltb isize_max cap)) [
  | inl more ↦ rw (layout_array-none cap (ltb→lt isize_max cap more), layout_for)
  | inr fits ↦
      rw (layout_array-some cap (ground arith), layout_for)
        (rw (align_to-none (record { size = cap; align = 1 }) h))
]

module _ (a : Allocator) where
  realloc-Settles :
      (rest : Heap) (b : BoxedString) (h : Heap) (cap : ℕ)
      → IsWf b
      → Owned rest b h
      → b.len ≤ cap
      → 0 < cap
      → Settles a h (λ b' h'. Stored rest (deref b) b' h' × (b'.cap ≡ cap)) (realloc a b cap h)
  unfolding realloc
  realloc-Settles rest b h cap w o fits pos = elim (Bool-cases (ltb cap isize_max)) [
    | inl small ↦ settled a (
        Succeeds.mono (realloc-Stored a rest b h cap w o fits pos (ltb→lt cap isize_max small))
          λ b' h' (s, room, _). (s, room))
    | inr large ↦ rw (layout_for-none cap (ground arith)) refuses
  ]

  -- On a well-formed boxed string that owns its block, for any request: unless the allocator
  -- answers null or the loop does not end, either the text stays, the string is well formed, owns
  -- one block and has room for the request, or the call panics with the heap as it was.
  pub ensure_capacity-Settles :
      (rest : Heap) (b : BoxedString) (h : Heap) (target : ℕ)
      → IsWf b
      → Owned rest b h
      → Settles a h
          (λ b' h'. Stored rest (deref b) b' h' × (target ≤ b'.cap))
          (ensure_capacity a b target h)
  unfolding ensure_capacity
  ensure_capacity-Settles rest b h target w o =
      elim (Option-cases (grown_capacity doublings b.cap target)) [
        | inl none_found ↦ rw (none_found, ensure_capacity) hangs
        | inr (found, e) ↦
            let (enough, from) = grown_capacity-enough doublings b.cap target found e in
            rw (e, ensure_capacity)
              (Settles.mono a
                (realloc-Settles rest b h found w o
                  (elim from [
                    | inl same ↦ omega (arith, w.fits)
                    | inr less ↦ omega (arith, w.fits)
                  ])
                  (elim from [ inl same ↦ omega (arith, w.cap_pos) | inr less ↦ omega arith ]))
                λ b' h' (s, room). (s, rw room enough))
      ]

  pub from_str-Settles :
      (rest : Heap) (cap : ℕ) (text : List ℕ)
      → length text ≤ max cap minimal_capacity
      → Settles a rest
          (λ b h. Stored rest text b h × (b.cap ≡ max cap minimal_capacity))
          (from_str a cap text rest)
  unfolding from_str new alloc
  from_str-Settles rest cap text fits = elim (Bool-cases (ltb cap isize_max)) [
    | inl small ↦ settled a (from_str-Stored a rest cap text (ltb→lt cap isize_max small) fits)
    | inr large ↦
        let same : (if ltb cap minimal_capacity then minimal_capacity else cap) ≡ cap =
          ground arith in
        rw (same) (rw (layout_for-none cap (ground arith)) refuses)
  ]
