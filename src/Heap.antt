-- ===== src/Heap.antt =====
-- The global allocator that boxed.rs calls, and the blocks that it has handed out. The allocator
-- itself is no part of the crate: a record of its functions and of what `GlobalAlloc` documents.
pub mod Succeeds
pub mod Settles
pub mod Unwinds
pub use smartstring.Request.{Layout, Heap}
use smartstring.Prelude.{
  refl, sym, ap, ◌∙◌, ℕ, ◌+◌, ◌-◌, ◌%◌, ◌^◌, ◌≤◌, ◌<◌, ◌≡◌, ◌≢◌, Bool, true, false, ◌&&◌, List,
  Option, none, some, arith, leb, ◌==◌, ==_iff, if◌then◌else◌, length, isize_max, Bool-cases, inl,
  inr,
}
use mathlib.Core.Path.{fun_ext}
use smartstring.Run.{M, done, panicked, undefined, aborted, ◌>>=◌, and_then, unwrap, assert}

abbrev pub update : Heap → ℕ → Option Layout → Heap
update h p b q = if p == q then b else h q

pub Layout-eq : Layout → Layout → Bool
Layout-eq a b = (a.size == b.size) && (a.align == b.align)

-- A usable address for a block: not null, not live, aligned, and a `usize`.
pub record Granted (h : Heap) (l : Layout) (p : ℕ) : Type 0 where
  pub unused : h p ≡ none
  pub nonnull : 0 < p
  pub aligned : p % l.align ≡ 0
  pub in_range : p < 2 ^ 64

-- `alloc` answers null (`none`), or an address and the block's first contents. `realloc` is asked
-- with the block taken out of the heap: it answers the address, which may be the old one, and the
-- contents behind those that are kept.
pub record Allocator : Type 0 where
  pub alloc : Heap → Layout → Option (ℕ × List ℕ)
  pub realloc : Heap → ℕ → Layout → ℕ → Option (ℕ × List ℕ)
  pub alloc_granted :
      (h : Heap) (l : Layout) (p : ℕ) (b : List ℕ)
      → alloc h l ≡ some (p, b)
      → Granted h l p × (length b ≡ l.size)
  pub realloc_granted :
      (h : Heap) (old : ℕ) (l : Layout) (n : ℕ) (p : ℕ) (b : List ℕ)
      → realloc h old l n ≡ some (p, b)
      → Granted h l p × (length b ≡ n - l.size)

-- `Layout::array::<u8>(n)`
pub layout_array : ℕ → Option Layout
layout_array n = if leb n isize_max then some (record { size = n; align = 1 }) else none

-- `layout.align_to(align)`, for an `align` above the layout's own: the size rounded up to it has to
-- stay within `isize::MAX`.
pub align_to : Layout → ℕ → Option Layout
align_to l align =
    if leb l.size (isize_max + 1 - align) then some (record l { align = align }) else none

pub layout_array-some :
    (n : ℕ) → n ≤ isize_max → layout_array n ≡ some (record { size = n; align = 1 })
unfolding layout_array
layout_array-some n h = ground arith

pub align_to-some :
    (n : ℕ)
    → n < isize_max
    → align_to (record { size = n; align = 1 }) 2 ≡ some (record { size = n; align = 2 })
unfolding align_to
align_to-some n h = ground arith

-- The size would pass `isize::MAX` when it is rounded up.
pub align_to-none : (l : Layout) → isize_max ≤ l.size → align_to l 2 ≡ none
unfolding align_to
align_to-none l h = ground arith

pub layout_array-none : (n : ℕ) → isize_max < n → layout_array n ≡ none
unfolding layout_array
layout_array-none n h = ground arith

pub Layout-eq_refl : (l : Layout) → Layout-eq l l ≡ true
unfolding Layout-eq
Layout-eq_refl l = ground arith

-- The heap with one block more.
pub record Owns (rest : Heap) (p : ℕ) (l : Layout) (h : Heap) : Type 0 where
  pub live : h ≡ update rest p (some l)
  pub unused : rest p ≡ none

update-update : (h : Heap) (p : ℕ) (a b : Option Layout) → update (update h p a) p b ≡ update h p b
update-update h p a b = fun_ext λ q. ground arith

update-none : (h : Heap) (p : ℕ) → h p ≡ none → update h p none ≡ h
update-none h p e = fun_ext λ q. elim (Bool-cases (p == q)) [
  | inl same ↦ rw (same, ← (==_iff p q).0 same, e)
  | inr other ↦ rw other
]

update_self : (h : Heap) (p : ℕ) (a : Option Layout) → update h p a p ≡ a
update_self h p a = ground arith

-- The owner of a block finds it, and the heap without it is the rest.
module _ {rest : Heap} {p : ℕ} {l : Layout} {h : Heap} (o : Owns rest p l h) where
  pub Owns-found : h p ≡ some l
  Owns-found = rw o.live (update_self rest p (some l))

  pub Owns-removed : update h p none ≡ rest
  Owns-removed = rw (o.live, update-update) (update-none rest p o.unused)

-- Of two blocks either may be taken for the older one.
pub Owns-swap :
    (rest : Heap) (p q : ℕ) (l k : Layout) (h h' : Heap)
    → Owns rest p l h
    → Owns h q k h'
    → Owns rest q k (update rest q (some k)) × Owns (update rest q (some k)) p l h'
Owns-swap rest p q l k h h' o o' = (
  record { live = refl; unused = rest_q },
  record {
    live = o'.live ∙ ap (λ r. update r q (some k)) o.live ∙ fun_ext (λ x. ground (arith, apart));
    unused = ground (arith, apart, o.unused);
  },
)
  where
    taken : update rest p (some l) q ≡ none
    taken = sym (ap (λ (r : Heap). r q) o.live) ∙ o'.unused

    apart : p ≢ q
    apart same = ground (arith, taken, same)

    rest_q : rest q ≡ none
    rest_q = ground (arith, taken, apart)
