-- ===== src/Smart/Methods.antt =====
-- The methods of lib.rs that change a string.
pub mod Laws
pub mod Inserts
pub mod Cuts
pub mod Panics
pub mod Extends
pub mod Stays
pub mod Iterators
pub mod Retains
pub mod SplitsOff
use smartstring.Prelude.{
  ℕ, Bool, true, false, List, [], ◌∷◌, Option, ltb, leb, if◌then◌else◌, length,
}
use smartstring.Run.{
  Run, M, done, panicked, aborted, undefined, diverged, pure, panic, unwrap, ◌>>=◌, ◌>>◌, and_then,
  map_state, on_second,
}
use smartstring.Inline.{max_inline}
use smartstring.Heap.{Heap, Allocator}
use smartstring.Boxed
use smartstring.Ops.{RangeBounds}
use smartstring.Ops.Push
use smartstring.Ops.PushStr
use smartstring.Ops.Truncate
use smartstring.Ops.Pop
use smartstring.Ops.Remove
use smartstring.Ops.Insert
use smartstring.Ops.InsertStr
use smartstring.Ops.SplitOff
use smartstring.Ops.ReplaceRange
use smartstring.Ops.Retain
use smartstring.Ops.Retain.{Predicate}
use smartstring.Smart.{
  SmartString, Mode, StringCast, boxed, inline, cast, from_boxed, from_inline, new,
}
use smartstring.Smart.Macros.{
  Method, string_op_grow, string_op_shrink, try_demote, really_try_demote, drop,
}
use smartstring.Smart.Convert.{from_str, deref}

module _ (a : Allocator) where
  pub push : ℕ → Method (Unit {0})
  push ch = string_op_grow a (Push.grow ch)

  pub push_str : List ℕ → Method (Unit {0})
  push_str string = string_op_grow a (PushStr.grow string)

  pub insert : ℕ → ℕ → Method (Unit {0})
  insert index ch = string_op_grow a (Insert.grow index ch)

  pub insert_str : ℕ → List ℕ → Method (Unit {0})
  insert_str index string = string_op_grow a (InsertStr.grow index string)

  shrink_cast_to_fit : StringCast → Method (Unit {0})
  shrink_cast_to_fit (inline i) = pure tt
  shrink_cast_to_fit (boxed b) =
      if ltb max_inline (length (Boxed.deref b))
      then (do c ← on_second (Boxed.shrink_to_fit a b); λ (s, h). done tt (from_boxed c, h))
      else pure tt

  pub shrink_to_fit : Method (Unit {0})
  unfolding shrink_cast_to_fit
  shrink_to_fit = do
    (λ (s, h). shrink_cast_to_fit (cast s) (s, h))
    _ ← really_try_demote a
    pure tt

  -- The assignment drops the old value.
  pub clear : Method (Unit {0})
  clear = do (λ (s, h). on_second (drop a s) (s, h)); λ (s, h). done tt (new, h)

  -- `extend` from strings, and from characters.
  unfoldable pub extend : List (List ℕ) → Method (Unit {0})
  extend [] = pure tt
  extend (item ∷ iter) = do push_str item; extend iter

  pub extend_chars : List ℕ → Method (Unit {0})
  extend_chars [] = pure tt
  extend_chars (ch ∷ iter) = do push ch; extend_chars iter

  -- What is built in a local variable: it is returned, or dropped when a panic unwinds.
  pub local : Run (SmartString × Heap) (Unit {0}) → Run Heap SmartString
  local (done x (s, h)) = done s h
  local (panicked (s, h)) = and_then (drop a s h) (λ _. panic)
  local (aborted q) = aborted q
  local undefined = undefined
  local diverged = diverged

  -- `impl FromIterator<char>`
  pub from_iter : List ℕ → M Heap SmartString
  unfolding local
  from_iter iter h = local (extend_chars iter (new, h))

  module _ (m : Mode) where
    pub truncate : ℕ → Method (Unit {0})
    truncate new_len = string_op_shrink a m (Truncate.shrink new_len)

    pub pop : Method (Option ℕ)
    pop = string_op_shrink a m Pop.shrink

    pub remove : ℕ → Method ℕ
    remove index = string_op_shrink a m (Remove.shrink index)

    pub split_off : ℕ → Method SmartString
    split_off index = string_op_shrink a m (SplitOff.shrink (from_str a) index)

    -- The closure's state is what it has done to the variables that it captures.
    pub retain : {E : Type 0} → Predicate E → E → Method E
    retain f e = string_op_shrink a m (Retain.shrink f e)

    pub replace_range : RangeBounds → List ℕ → Method (Unit {0})
    replace_range range replace_with = do
      string_op_grow a (ReplaceRange.grow range replace_with)
      _ ← try_demote a m
      pure tt
