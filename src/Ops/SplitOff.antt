-- ===== src/Ops/SplitOff.antt =====
-- `SplitOff` of ops.rs. `into` is the conversion of the tail to a new string.
use smartstring.Prelude.{ℕ, ◌≡◌, refl, ap, true, false, List, arith, length, take, drop}
use smartstring.Run.{M, pure, gets, unwrap, assert, ◌>>=◌, ◌>>◌, on_first, on_second}
use smartstring.Heap.{Heap, Allocator}
use smartstring.Heap.Succeeds
use smartstring.Heap.Succeeds.{Succeeds, returns, gives_up}
use smartstring.Heap.{Heap}
use smartstring.Generic.{resize, GenericString, Holds, Holds-cut}
use smartstring.Utf8.{is_char_boundary, get_from}
use smartstring.Ops.{ShrinkOp}
use smartstring.Ops.Splice.{Panics}
use smartstring.Utf8.Laws.{boundary_le, get_from_boundary}

module _ {S R : Type 0} ⦃g : GenericString S⦄ (into : List ℕ → M Heap R) where
  pub op : ℕ → M (S × Heap) R
  op index = do
    text ← gets (λ p. g.deref p.0)
    assert (is_char_boundary text index)
    tail ← unwrap (get_from text index)
    result ← on_second (into tail)
    on_first (resize index)
    pure result

pub shrink : {R : Type 0} → (List ℕ → M Heap R) → ℕ → ShrinkOp R
shrink into index = record { op = λ S g. op ⦃g = g⦄ into index }

-- On a boundary the tail is converted, and the string keeps what stands before the index. What the
-- conversion does to the heap is all that happens to the heap.
pub shrink-splits :
    (a : Allocator) {R : Type 0} {Q : R → Heap → Type 0} (into : List ℕ → M Heap R) (index : ℕ)
    (text : List ℕ)
    → is_char_boundary text index ≡ true
    → (S : Type 0) (g : GenericString S) (s : S) (h : Heap) → g.IsWf s
    → g.deref s ≡ text
    → Succeeds a Q (into (drop index text) h)
    → Succeeds a
        (λ x p. Q x p.1 × Holds ⦃g = g⦄ s (take index text) p.0)
        ((shrink into index).op S g (s, h))
unfolding shrink op
shrink-splits a into index text at_char S g s h w e converted =
    let held =
      rw e at (
        Holds-cut ⦃g = g⦄ s w index (omega (arith, boundary_le text index at_char, ap length e))) in
    rw (e, at_char, get_from_boundary text index at_char)
      (Succeeds.bind_map (λ h'. (s, h')) _ converted λ x h' q. returns (q, held))

pub shrink-Panics :
    {R : Type 0} (into : List ℕ → M Heap R) (index : ℕ) (text : List ℕ)
    → is_char_boundary text index ≡ false
    → Panics (shrink into index) text
unfolding shrink op
shrink-Panics into index text off S g s h e = rw (e, off) refl
