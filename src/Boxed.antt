-- ===== src/Boxed.antt =====
-- boxed.rs: the string on the heap. Its buffer is owned by the string alone, so the bytes behind
-- the pointer are a field of the string; the allocator's view of the block is in the heap.
pub mod Wf
pub mod Grow
pub mod Blocks
pub mod Texts
pub mod Sizes
pub mod Hangs
pub mod Strings
pub mod Into
pub mod Takeover
use smartstring.Prelude.{
  ℕ, zero, suc, ◌+◌, ◌-◌, ◌*◌, ◌%◌, ◌≤◌, ◌<◌, ◌≡◌, Bool, true, false, not, List, [], ◌++◌, Option,
  none, some, ltb, leb, ◌==◌, if◌then◌else◌, length, take, isize_max, umul,
}
use smartstring.Run.{
  Run, M, done, panicked, undefined, aborted, diverged, pure, panic, unwrap, assert, ◌>>=◌, ◌>>◌,
  and_then,
}
use smartstring.Request.{block_of, growth_of}
use smartstring.Heap.{Heap, Layout, Layout-eq, Allocator, update, layout_array, align_to}
use smartstring.Slice.{copy_from_slice}
use smartstring.Inline.{max_inline}

pub record BoxedString : Type 0 where
  pub ptr : ℕ
  pub cap : ℕ
  pub len : ℕ
  pub buffer : List ℕ

-- The standard library's `String`. Its own block is the library's affair, and not in the heap here.
pub record StdString : Type 0 where
  pub capacity : ℕ
  pub text : List ℕ

-- `str::to_string` and `String::from(&str)` allocate as much as the text needs.
abbrev pub to_string : List ℕ → StdString
to_string text = record { capacity = length text; text = text }

-- `ptr.align_offset(2) > 0`
unfoldable pub check_alignment : BoxedString → Bool
check_alignment b = not (b.ptr % 2 == 0)

-- `impl Deref`
pub deref : BoxedString → List ℕ
deref b = take b.len b.buffer

pub set_size : BoxedString → ℕ → BoxedString
set_size b size = record b { len = size }

abbrev pub minimal_capacity : ℕ
minimal_capacity = max_inline * 2

-- `BoxedString::layout_for`; `none` is its panic.
pub layout_for : ℕ → Option Layout
layout_for cap = elim (layout_array cap) [
  | none ↦ none
  | some bytes ↦ elim (align_to bytes 2) [
    | none ↦ none
    | some layout ↦ if leb layout.size isize_max then some layout else none
  ]
]

-- `while cap < target_cap { cap *= 2; }`
pub grown_capacity : ℕ → ℕ → ℕ → Option ℕ
grown_capacity zero cap target = none
grown_capacity (suc fuel) cap target =
    let rest = grown_capacity fuel (umul cap 2) target in if ltb cap target then rest else some cap

-- A `usize` above zero that is doubled 64 times has wrapped to zero.
abbrev pub doublings : ℕ
doublings = 64

module _ (a : Allocator) where
  pub alloc : ℕ → M Heap (ℕ × List ℕ)
  alloc cap = do
    layout ← unwrap (layout_for cap)
    if layout.size == 0 then (λ h. undefined) else λ h. elim (a.alloc h layout) [
      | none ↦ aborted (block_of h layout)
      | some (p, bytes) ↦ done (p, bytes) (update h p (some layout))
    ]

  -- The block is looked up with the layout that the call names, as `dealloc` and `realloc` ask.
  abbrev pub release : ℕ → Layout → M Heap (Unit {0})
  release p layout h = elim (h p) [
    | none ↦ undefined
    | some l ↦ if Layout-eq l layout then done tt (update h p none) else undefined
  ]

  pub realloc : BoxedString → ℕ → M Heap BoxedString
  realloc b cap = do
    layout ← unwrap (layout_for cap)
    old_layout ← unwrap (layout_for b.cap)
    release b.ptr old_layout
    if layout.size == 0 then (λ h. undefined) else λ h.
        elim (a.realloc h b.ptr old_layout layout.size) [
          | none ↦ aborted (growth_of h b.ptr old_layout layout.size)
          | some (p, bytes) ↦
              done (record b { ptr = p; cap = cap; buffer = take layout.size b.buffer ++ bytes })
                (update h p (some (record old_layout { size = layout.size })))
        ]

  pub ensure_capacity : BoxedString → ℕ → M Heap BoxedString
  ensure_capacity b target = elim (grown_capacity doublings b.cap target) [
    | none ↦ λ h. diverged
    | some cap ↦ realloc b cap
  ]

  pub new : ℕ → M Heap BoxedString
  new cap = do
    let cap = if ltb cap minimal_capacity then minimal_capacity else cap
    (ptr, bytes) ← alloc cap
    pure (record { ptr = ptr; cap = cap; len = 0; buffer = bytes })

  -- `impl Drop`
  pub drop : BoxedString → M Heap (Unit {0})
  drop b = do layout ← unwrap (layout_for b.cap); release b.ptr layout

  -- A panic of the slice drops the new string.
  pub from_str : ℕ → List ℕ → M Heap BoxedString
  from_str cap src = do
    out ← new cap
    elim (copy_from_slice 0 (length src) src out.buffer) [
      | none ↦ drop (record out { len = length src }) >> panic
      | some b ↦ pure (record out { len = length src; buffer = b })
    ]

  pub shrink_to_fit : BoxedString → M Heap BoxedString
  shrink_to_fit b = realloc b b.len

  pub clone : BoxedString → M Heap BoxedString
  clone b = from_str b.cap (deref b)

  -- `impl From<String>`, in a build without the `Allocator` trait.
  pub from_string : StdString → M Heap BoxedString
  from_string s = if length s.text == 0 then new s.capacity else from_str s.capacity s.text
