-- ===== src/Ops/Splice.antt =====
-- What the operations do to the text, in terms of the text alone, and the buffers that they leave.
use smartstring.Prelude.{
  ℕ, ◌+◌, ◌-◌, ◌≤◌, ◌<◌, ◌≡◌, ◌∙◌, sym, ap, List, [], ◌++◌, arith, length, take, drop, none, some,
  take-take, drop-take, take_add, usize_mod,
}
use smartstring.Run.{done, panicked}
use smartstring.Heap.{Heap}
use smartstring.Ops.{GrowOp, ShrinkOp}
use smartstring.Generic.{GenericString, Holds, Leaves}
use smartstring.Slice.{moved, written, range, take-moved, range-moved, take-written, length-moved}

-- `text` with the bytes from `start` to `end` replaced by `src`.
abbrev pub splice : ℕ → ℕ → List ℕ → List ℕ → List ℕ
splice start end src text = take start text ++ (src ++ drop end text)

-- The buffer has room for `n` bytes.
pub record Room {S : Type 0} ⦃g : GenericString S⦄ (s : S) (n : ℕ) : Type 0 where
  pub enough : n ≤ length (g.capacity_slice s)
  pub addressable : length (g.capacity_slice s) < usize_mod

pub Room-le : {S : Type 0} ⦃g : GenericString S⦄ {s : S} {m n : ℕ} → m ≤ n → Room s n → Room s m
Room-le h r = record { enough = omega (arith, r.enough); addressable = r.addressable }

module _ (n start end : ℕ) (buf : List ℕ) (h : start ≤ end) (k : end ≤ n) (l : n ≤ length buf) where
  front : take start buf ≡ take start (take n buf)
  front = sym (take-take start n buf (omega arith))

  back : range end n buf ≡ drop end (take n buf)
  back = sym (drop-take end n buf)

  module _ (dest : ℕ) (src : List ℕ) (e : dest ≡ start + length src)
      (m : dest + (n - end) ≤ length buf) where
    pub written-moved :
        take (dest + (n - end)) (written start dest src (moved end n dest buf))
        ≡ splice start end src (take n buf)
    written-moved =
        take-written start dest src (moved end n dest buf) e
          (omega (arith, length-moved end n dest buf k l m)) (n - end)
        ∙ ap (λ t. t ++ (src ++ take (n - end) (drop dest (moved end n dest buf))))
            (take-moved end n dest buf k l m start (omega arith) ∙ front)
        ∙ ap (λ t. take start (take n buf) ++ (src ++ t)) (range-moved end n dest buf k l m ∙ back)

  pub take-moved_lem :
      take (start + (n - end)) (moved end n start buf) ≡ splice start end [] (take n buf)
  take-moved_lem =
      take_add start (n - end) (moved end n start buf)
      ∙ ap (λ t. t ++ take (n - end) (drop start (moved end n start buf)))
          (take-moved end n start buf k l (omega arith) start (omega arith) ∙ front)
      ∙ ap (λ t. take start (take n buf) ++ t)
          (range-moved end n start buf k l (omega arith) ∙ back)

-- On every string with the text `text`, the operation needs `length text'` bytes, and with that
-- room it returns `x` and leaves `text'`.
pub record Grows {A : Type 0} (o : GrowOp A) (text text' : List ℕ) (x : A) : Type 1 where
  pub needs :
      (S : Type 0) (g : GenericString S) (s : S)
      → g.IsWf s
      → g.deref s ≡ text
      → o.cap S g s ≡ some (length text')
  pub leaves :
      (S : Type 0) (g : GenericString S) (s : S)
      → g.IsWf s
      → g.deref s ≡ text
      → Room ⦃g = g⦄ s (length text')
      → Leaves ⦃g = g⦄ s text' x (o.op S g s)

-- On every string with the text `text`, an assertion of `cap` panics.
abbrev pub Refuses : {A : Type 0} → GrowOp A → List ℕ → Type 1
Refuses o text = (S : Type 0) (g : GenericString S) (s : S) → g.deref s ≡ text → o.cap S g s ≡ none

-- The same for an operation that needs no room. The heap stays as it is.
abbrev pub Shrinks : {A : Type 0} → ShrinkOp A → List ℕ → List ℕ → A → Type 1
Shrinks o text text' x =
    (S : Type 0) (g : GenericString S) (s : S) (h : Heap)
    → g.IsWf s
    → g.deref s ≡ text
    → Room ⦃g = g⦄ s (length text)
    → (s' : S) × (o.op S g (s, h) ≡ done x (s', h)) × Holds ⦃g = g⦄ s text' s'

-- It panics, and leaves the string and the heap as they were.
abbrev pub Panics : {A : Type 0} → ShrinkOp A → List ℕ → Type 1
Panics o text =
    (S : Type 0) (g : GenericString S) (s : S) (h : Heap)
    → g.deref s ≡ text
    → o.op S g (s, h) ≡ panicked (s, h)

-- It panics with the string changed to `text'`, and leaves the heap as it was.
abbrev pub Breaks : {A : Type 0} → ShrinkOp A → List ℕ → List ℕ → Type 1
Breaks o text text' =
    (S : Type 0) (g : GenericString S) (s : S) (h : Heap)
    → g.IsWf s
    → g.deref s ≡ text
    → Room ⦃g = g⦄ s (length text)
    → (s' : S) × (o.op S g (s, h) ≡ panicked (s', h)) × Holds ⦃g = g⦄ s text' s'
