-- ===== src/Request.antt =====
-- What a call asks the allocator for, in which heap.
use smartstring.Prelude.{ℕ, Option}

pub record Layout : Type 0 where
  pub size : ℕ
  pub align : ℕ

-- The live blocks: the layout that each address was allocated with.
abbrev pub Heap : Type 0
Heap = ℕ → Option Layout

-- A call of `alloc` with a layout, or of `realloc` with an address, its layout and the new size. The
-- block that is to grow has been taken out of the heap.
pub data Request : Type 0 where
  block_of : Heap → Layout → Request
  growth_of : Heap → ℕ → Layout → ℕ → Request
