-- ===== src/Boxed/Takeover.antt =====
-- boxed.rs in a build with the `Allocator` trait (`has_allocator`): a `String` and a boxed string
-- take over each other's block.
pub mod Grows
pub mod Takes
pub mod Gives
use smartstring.Heap.{layout_array, Layout-eq, update, Granted, Heap, Allocator, Layout}
use smartstring.Boxed.{BoxedString, drop, deref, new, from_str, release, layout_for}
use smartstring.Prelude.{
  ℕ, zero, suc, ◌+◌, ◌-◌, ◌*◌, ◌≤◌, ◌<◌, ◌≡◌, ◌∙◌, ◌↔◌, ◌⊎◌, refl, sym, ap, inl, inr, Bool, true,
  false, not, ◌&&◌, ◌||◌, List, [], ◌∷◌, ◌++◌, Option, none, some, arith, ltb, leb, ◌==◌,
  if◌then◌else◌, Bool-cases, Option-cases, length, take, length-append, append_assoc, append-nil,
  All,
}
use smartstring.Run.{
  Run, M, done, panicked, aborted, undefined, diverged, pure, panic, gets, unwrap, assert, ◌>>=◌,
  ◌>>◌, and_then, map_state, on_first, on_second,
}
use smartstring.Boxed.Strings.{RawString, text_of, bytes_layout, drop_string, copy_string}

-- `Global` with the unstable `Allocator::grow`, which may fail. It answers the block's new address
-- and the bytes behind those that are kept.
pub record Global : Type 0 where
  pub base : Allocator
  pub grow : Heap → ℕ → Layout → Layout → Option (ℕ × List ℕ)
  pub grow_granted :
      (h : Heap) (p : ℕ) (old new : Layout) (q : ℕ) (b : List ℕ)
      → grow h p old new ≡ some (q, b)
      → Granted h new q × (length b ≡ new.size - old.size)

module _ (g : Global) where
  -- The block must be live with the layout that is named, and must not shrink. A failure leaves it.
  grown : Heap → Layout → List ℕ → Option (ℕ × List ℕ) → Heap → Run Heap (Option (ℕ × List ℕ))
  grown without new bytes none h = done none h
  grown without new bytes (some (q, b)) h =
      done (some (q, bytes ++ b)) (update without q (some new))

  pub grow_block : ℕ → Layout → Layout → List ℕ → M Heap (Option (ℕ × List ℕ))
  unfolding grown
  grow_block p old new bytes h = elim (h p) [
    | none ↦ undefined
    | some l ↦
        if Layout-eq l old && leb old.size new.size
        then grown (update h p none) new bytes (g.grow (update h p none) p old new) h
        else undefined
  ]

  taken : RawString → Option (ℕ × List ℕ) → M Heap BoxedString
  taken s (some (p, bytes)) =
      pure (record { ptr = p; cap = s.capacity; len = s.len; buffer = bytes })
  taken s none = do b ← from_str g.base s.capacity (text_of s); drop_string g.base s; pure b

  -- `impl From<String>`
  pub from_raw : RawString → M Heap BoxedString
  unfolding taken
  from_raw s =
      if s.len == 0 then (do b ← new g.base s.capacity; drop_string g.base s; pure b) else (do
        old_layout ← unwrap (layout_array s.capacity)
        layout ← unwrap (layout_for s.capacity)
        answer ← grow_block s.ptr old_layout layout s.bytes
        taken s answer)

  given : BoxedString → Option (ℕ × List ℕ) → M Heap RawString
  given b (some (p, bytes)) =
      pure (record { ptr = p; capacity = b.cap; len = b.len; bytes = bytes })
  given b none = do s ← copy_string g.base (deref b); drop g.base b; pure s

  -- `impl From<BoxedString> for String`
  pub into_raw : BoxedString → M Heap RawString
  unfolding given
  into_raw b = do
    new_layout ← unwrap (layout_array b.cap)
    layout ← unwrap (layout_for b.cap)
    answer ← grow_block b.ptr layout new_layout b.buffer
    given b answer
