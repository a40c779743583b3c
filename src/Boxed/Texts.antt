-- ===== src/Boxed/Texts.antt =====
-- The functions of boxed.rs that are made of `realloc`, `from_str` and `drop`.
use smartstring.Prelude.{ℕ, ◌≤◌, ◌<◌, ◌≡◌, false, arith, ◌==◌, length, isize_max, max}
use smartstring.Heap.{Heap, Allocator}
use smartstring.Heap.Succeeds
use smartstring.Heap.Succeeds.{Succeeds, Exhausted, returns, gives_up}
use smartstring.Boxed.{
  BoxedString, deref, minimal_capacity, ensure_capacity, from_string, StdString, shrink_to_fit,
  clone,
}
use smartstring.Boxed.Wf.{IsWf, length-deref}
use smartstring.Boxed.Grow.{Grown, request_limit, ensure-Grown}
use smartstring.Boxed.Blocks.{Owned, Stored, realloc-Stored, from_str-Stored}

module _ (a : Allocator) where
  -- On a well-formed boxed string that owns its block, with a request below 2^62, unless the
  -- allocator answers null: the text stays, the string is well formed, the one block that it owns
  -- has the new capacity's layout, and the capacity is as the loop's bounds say.
  pub ensure_capacity-Stored :
      (rest : Heap) (b : BoxedString) (h : Heap) (target : ℕ)
      → IsWf b
      → Owned rest b h
      → target < request_limit
      → Succeeds a
          (λ b' h'. Stored rest (deref b) b' h' × Grown b.cap target b'.cap)
          (ensure_capacity a b target h)
  unfolding ensure_capacity
  ensure_capacity-Stored rest b h target w o lim =
      let (found, e, grown) = ensure-Grown b.cap target w.cap_pos lim in
      rw (e, ensure_capacity)
        (Succeeds.mono
          (realloc-Stored a rest b h found w o (omega (arith, w.fits, grown.kept))
            (omega (arith, w.cap_pos, grown.kept)) (omega (arith, w.cap_lt, grown.bounded)))
          λ b' h' (s, room, _). (s, rw room grown))

  pub shrink_to_fit-Stored :
      (rest : Heap) (b : BoxedString) (h : Heap)
      → IsWf b
      → Owned rest b h
      → 0 < b.len
      → Succeeds a
          (λ b' h'. Stored rest (deref b) b' h' × (b'.cap ≡ b.len) × (b'.len ≡ b.len))
          (shrink_to_fit a b h)
  unfolding shrink_to_fit
  shrink_to_fit-Stored rest b h w o pos =
      realloc-Stored a rest b h b.len w o (omega arith) pos (omega (arith, w.fits, w.cap_lt))

  pub clone-Stored :
      (rest : Heap) (b : BoxedString)
      → IsWf b
      → Succeeds a
          (λ b' h'. Stored rest (deref b) b' h' × (b'.cap ≡ max b.cap minimal_capacity))
          (clone a b rest)
  unfolding clone
  clone-Stored rest b w =
      from_str-Stored a rest b.cap (deref b) w.cap_lt (omega (arith, length-deref b w, w.fits))

  pub from_string-Stored :
      (rest : Heap) (s : StdString)
      → length s.text ≤ s.capacity
      → s.capacity < isize_max
      → 0 < length s.text
      → Succeeds a
          (λ b h. Stored rest s.text b h × (b.cap ≡ max s.capacity minimal_capacity))
          (from_string a s rest)
  unfolding from_string
  from_string-Stored rest s fits lim some_text =
      let nonempty : (length s.text == 0) ≡ false = ground arith in
      rw nonempty (from_str-Stored a rest s.capacity s.text lim (omega arith))
