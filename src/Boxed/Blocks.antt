-- ===== src/Boxed/Blocks.antt =====
-- The functions of boxed.rs that call the allocator: each leaves a well-formed string that owns its
-- block, and the rest of the heap as it was.
use smartstring.Prelude.{
  ℕ, ◌%◌, ◌^◌, ◌≤◌, ◌<◌, ◌≡◌, ◌∙◌, refl, sym, ap, true, false, List, [], some, arith, ltb, leb,
  ◌==◌, if◌then◌else◌, Option-cases, inl, inr, length, take, length-append, length-take,
  take-append_eq, take-append_le, take-take, isize_max, max,
}
use smartstring.Run.{done}
use smartstring.Heap.{
  Heap, Layout, Allocator, Owns, layout_array-some, align_to-some, Layout-eq_refl, Owns-found,
  Owns-removed,
}
use smartstring.Heap.Succeeds
use smartstring.Heap.Succeeds.{Succeeds, Exhausted, returns, gives_up}
use smartstring.Slice.{copy_from_slice-written, length-written}
use smartstring.Boxed.{
  BoxedString, deref, minimal_capacity, layout_for, alloc, release, realloc, new, drop, from_str,
}
use smartstring.Boxed.Wf.{IsWf}

-- The layout of a block of `cap` bytes.
abbrev pub block : ℕ → Layout
block cap = record { size = cap; align = 2 }

abbrev pub Owned : Heap → BoxedString → Heap → Type 0
Owned rest b h = Owns rest b.ptr (block b.cap) h

pub deref_lem : (b : BoxedString) → deref b ≡ take b.len b.buffer
unfolding deref
deref_lem b = refl

pub layout_for-some : (cap : ℕ) → cap < isize_max → layout_for cap ≡ some (block cap)
unfolding layout_for
layout_for-some cap h =
    let fits : leb cap isize_max ≡ true = ground arith in
    rw (layout_array-some cap (omega arith), layout_for)
      (rw (align_to-some cap h, layout_for) (rw (fits)))

-- A fresh block, beside the blocks that were there.
pub record Fresh (rest : Heap) (cap p : ℕ) (bytes : List ℕ) (h : Heap) : Type 0 where
  pub owned : Owns rest p (block cap) h
  pub nonnull : 0 < p
  pub even : p % 2 ≡ 0
  pub in_range : p < 2 ^ 64
  pub full : length bytes ≡ cap

-- A well-formed string with the given text, whose block is the only one beside `rest`.
pub record Stored (rest : Heap) (text : List ℕ) (b : BoxedString) (h : Heap) : Type 0 where
  pub wf : IsWf b
  pub owned : Owned rest b h
  pub text_eq : deref b ≡ text

module _ (a : Allocator) where
  alloc-Fresh :
      (rest : Heap) (cap : ℕ)
      → 0 < cap
      → cap < isize_max
      → Succeeds a (λ (p, bytes) h. Fresh rest cap p bytes h) (alloc a cap rest)
  unfolding alloc
  alloc-Fresh rest cap pos lim =
      let some_bytes : (cap == 0) ≡ false = ground arith in
      rw (layout_for-some cap lim, some_bytes)
        (elim (Option-cases (a.alloc rest (block cap))) [
          | inl null ↦ rw null (gives_up null)
          | inr ((p, bytes), e) ↦
              let (g, full) = a.alloc_granted rest (block cap) p bytes e in
              rw e (
                returns (record {
                  owned = record { live = refl; unused = g.unused };
                  nonnull = g.nonnull;
                  even = g.aligned;
                  in_range = g.in_range;
                  full = full;
                }))
        ])

  pub release_lem :
      (rest : Heap) (p : ℕ) (l : Layout) (h : Heap)
      → Owns rest p l h
      → release a p l h ≡ done tt rest
  release_lem rest p l h o =
      rw (Owns-found o, release) (rw (Layout-eq_refl l) (ap (done tt) (Owns-removed o)))

  -- `drop` gives the block back, and what is left is the rest of the heap.
  pub drop_lem :
      (rest : Heap) (b : BoxedString) (h : Heap)
      → IsWf b
      → Owned rest b h
      → drop a b h ≡ done tt rest
  unfolding drop
  drop_lem rest b h w o =
      rw (layout_for-some b.cap w.cap_lt) (release_lem rest b.ptr (block b.cap) h o)

  -- A new string of at least the minimal capacity.
  pub new-Stored :
      (rest : Heap) (cap : ℕ)
      → cap < isize_max
      → Succeeds a
          (λ b h. Stored rest [] b h × (b.len ≡ 0) × (b.cap ≡ max cap minimal_capacity))
          (new a cap rest)
  unfolding new
  new-Stored rest cap lim =
      let room = if ltb cap minimal_capacity then minimal_capacity else cap in
      Succeeds.bind (alloc-Fresh rest room (ground arith) (ground arith)) λ (p, bytes) h f.
        returns (
          record {
            wf = record {
              fits = omega arith;
              full = f.full;
              cap_pos = ground arith;
              cap_lt = ground arith;
              nonnull = f.nonnull;
              even = f.even;
              in_range = f.in_range;
            };
            owned = f.owned;
            text_eq = deref_lem _;
          },
          refl,
          ground arith,
        )

  -- The text is copied into a new block.
  pub from_str-Stored :
      (rest : Heap) (cap : ℕ) (text : List ℕ)
      → cap < isize_max
      → length text ≤ max cap minimal_capacity
      → Succeeds a
          (λ b h. Stored rest text b h × (b.cap ≡ max cap minimal_capacity))
          (from_str a cap text rest)
  unfolding from_str
  from_str-Stored rest cap text lim fits =
      Succeeds.bind (new-Stored rest cap lim) λ b h (s, empty, room).
        let copied =
          copy_from_slice-written 0 (length text) text b.buffer (omega arith)
            (omega (arith, s.wf.full)) in
        rw (copied) (
          returns (
            record {
              wf = record {
                fits = omega arith;
                full =
                    length-written 0 (length text) text b.buffer (omega arith)
                      (omega (arith, s.wf.full))
                    ∙ s.wf.full;
                cap_pos = s.wf.cap_pos;
                cap_lt = s.wf.cap_lt;
                nonnull = s.wf.nonnull;
                even = s.wf.even;
                in_range = s.wf.in_range;
              };
              owned = s.owned;
              text_eq = deref_lem _ ∙ take-append_eq (length text) text _ refl;
            },
            room,
          ))

  -- A block that is moved or resized keeps the text.
  pub realloc-Stored :
      (rest : Heap) (b : BoxedString) (h : Heap) (cap : ℕ)
      → IsWf b
      → Owned rest b h
      → b.len ≤ cap
      → 0 < cap
      → cap < isize_max
      → Succeeds a
          (λ b' h'. Stored rest (deref b) b' h' × (b'.cap ≡ cap) × (b'.len ≡ b.len))
          (realloc a b cap h)
  unfolding realloc
  realloc-Stored rest b h cap w o fits pos lim =
      let some_bytes : (cap == 0) ≡ false = ground arith in
      rw
        (
          layout_for-some cap lim,
          layout_for-some b.cap w.cap_lt,
          release_lem rest b.ptr (block b.cap) h o,
          some_bytes,
        )
        (elim (Option-cases (a.realloc rest b.ptr (block b.cap) cap)) [
          | inl null ↦ rw null (gives_up null)
          | inr ((p, bytes), e) ↦
              let (g, full) = a.realloc_granted rest b.ptr (block b.cap) cap p bytes e in
              rw e (
                returns (
                  record {
                    wf = record {
                      fits = fits;
                      full = omega (
                        arith,
                        length-append (take cap b.buffer) bytes,
                        length-take cap b.buffer,
                        w.full,
                      );
                      cap_pos = pos;
                      cap_lt = lim;
                      nonnull = g.nonnull;
                      even = g.aligned;
                      in_range = g.in_range;
                    };
                    owned = record { live = refl; unused = g.unused };
                    text_eq =
                        deref_lem _
                        ∙ take-append_le b.len (take cap b.buffer) bytes
                            (omega (arith, length-take cap b.buffer, w.full, w.fits))
                        ∙ take-take b.len cap b.buffer fits
                        ∙ sym (deref_lem b);
                  },
                  refl,
                  refl,
                ))
        ])
