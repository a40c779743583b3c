-- ===== src/Ops.antt =====
-- ops.rs: the two kinds of string operation, `bounds_for` and `insert_bytes`. Each operation has a
-- child module with its `cap` and `op`; the macros that run them are in the modules of the string.
pub mod Splice
pub mod InsertBytes
pub mod PushStr
pub mod Push
pub mod Truncate
pub mod Pop
pub mod Remove
pub mod Insert
pub mod InsertStr
pub mod SplitOff
pub mod ReplaceRange
pub mod Retain
use smartstring.Prelude.{
  ◌≡◌, refl, ℕ, ◌+◌, ◌^◌, Option, none, some, List, if◌then◌else◌, ltb, uadd, length, usize_mod,
}
use smartstring.Run.{M, done, pure, gets, ◌>>=◌, ◌>>◌, and_then}
use smartstring.Heap.{Heap}
use smartstring.Generic.{GenericString, len, edit, resize}
use smartstring.Slice.{copy_within, copy_from_slice}

-- An operation that may grow the string: `cap` is the capacity that it needs (`none` if one of its
-- assertions panics), and it is generic in the string, as the macro uses it at both types.
pub record GrowOp (A : Type 0) : Type 1 where
  pub cap : (S : Type 0) → GenericString S → S → Option ℕ
  pub op : (S : Type 0) → GenericString S → M S A

-- An operation that does not grow the string. Only `split_off` allocates.
pub record ShrinkOp (A : Type 0) : Type 1 where
  pub op : (S : Type 0) → GenericString S → M (S × Heap) A

-- `core::ops::Bound` and the two ends of a `RangeBounds<usize>`
pub data Bound : Type 0 where
  included : ℕ → Bound
  excluded : ℕ → Bound
  unbounded : Bound

pub record RangeBounds : Type 0 where
  pub start_bound : Bound
  pub end_bound : Bound

-- `n.checked_add(1)`
abbrev checked_suc : ℕ → Option ℕ
checked_suc n = if ltb (n + 1) usize_mod then some (n + 1) else none

unfoldable pub start_of : Bound → Option ℕ
start_of (included n) = some n
start_of (excluded n) = checked_suc n
start_of unbounded = some 0

unfoldable pub end_of : Bound → ℕ → Option ℕ
end_of (included n) max_len = checked_suc n
end_of (excluded n) max_len = some n
end_of unbounded max_len = some max_len

unfoldable pub bounds_for : RangeBounds → ℕ → Option (ℕ × ℕ)
bounds_for range max_len = elim (start_of range.start_bound) [
  | none ↦ none
  | some start ↦ elim (end_of range.end_bound max_len) [
    | none ↦ none
    | some end ↦ some (start, end)
  ]
]

pub bounds_for_half_open :
    (i j len : ℕ)
    → bounds_for (record { start_bound = included i; end_bound = excluded j }) len ≡ some (i, j)
unfolding bounds_for start_of end_of
bounds_for_half_open i j len = refl

pub insert_bytes : {S : Type 0} ⦃g : GenericString S⦄ → ℕ → List ℕ → M S (Unit {0})
insert_bytes index src = do
  n ← gets len
  let src_len = length src
  let tail_index = uadd index src_len
  if ltb 0 src_len
      then (do
        edit (copy_within index n tail_index)
        edit (copy_from_slice index tail_index src)
        resize (uadd n src_len))
      else pure tt
