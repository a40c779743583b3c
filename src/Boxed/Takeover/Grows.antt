-- ===== src/Boxed/Takeover/Grows.antt =====
-- A block that grows.
use smartstring.Prelude.{
  ℕ, ◌≤◌, ◌≡◌, inl, inr, true, List, ◌++◌, Option, none, some, arith, leb, Option-cases, length,
  length-append,
}
use smartstring.Heap.{Layout, Heap}
use smartstring.Heap.Succeeds.{Succeeds, returns}
use smartstring.Boxed.Takeover.{Global, grow_block, grown}
use smartstring.Heap.{Owns-found, Owns-removed, Owns, Layout-eq_refl, update, Granted}
use smartstring.Heap.Succeeds.{Succeeds, returns}

-- The block stays, or has moved and keeps its bytes.
pub data Grew (rest : Heap) (new : Layout) (bytes : List ℕ) (h : Heap)
    : Option (ℕ × List ℕ) → Heap → Type 0 where
  refused : Grew rest new bytes h none h
  moved :
      (q : ℕ) (b : List ℕ)
      → Granted rest new q
      → length (bytes ++ b) ≡ new.size
      → Grew rest new bytes h (some (q, bytes ++ b)) (update rest q (some new))

module _ (g : Global) where
  pub grow_block-Grew :
      (rest : Heap) (p : ℕ) (old new : Layout) (bytes : List ℕ) (h : Heap)
      → Owns rest p old h
      → old.size ≤ new.size
      → length bytes ≡ old.size
      → Succeeds g.base (Grew rest new bytes h) (grow_block g p old new bytes h)
  unfolding grow_block grown
  grow_block-Grew rest p old new bytes h o larger full =
      let room : leb old.size new.size ≡ true = ground arith in
      rw (Owns-found o, grow_block)
        (rw (Layout-eq_refl old, room, Owns-removed o)
          (elim (Option-cases (g.grow rest p old new)) [
            | inl null ↦ rw null (returns refused)
            | inr ((q, b), e) ↦
                let (granted, rest_full) = g.grow_granted rest p old new q b e in
                rw e (returns (moved q b granted (omega (arith, length-append bytes b))))
          ]))
