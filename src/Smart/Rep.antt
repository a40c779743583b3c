-- ===== src/Smart/Rep.antt =====
-- What a string stands for: its text, and the heap block that it owns if it has one.
use smartstring.Boxed.Strings.{
  bytes_layout, without, within, RawString, IsString, IsString-moved, OwnsString-swap,
}
use smartstring.Prelude.{
  some, ℕ, ◌≤◌, ◌≡◌, ◌∙◌, refl, sym, ap, true, false, List, [], arith, leb, length,
}
use smartstring.Heap.{update, Owns-swap, Heap}
use smartstring.Generic.{Holds}
use smartstring.Inline.{InlineString, max_inline}
use smartstring.Inline as Inline
use smartstring.Inline.Wf as InlineWf
use smartstring.Boxed.{BoxedString, deref}
use smartstring.Boxed.Wf as BoxedWf
use smartstring.Boxed.Blocks.{block, Stored}
use smartstring.Ops.Splice.{Room}
use smartstring.Smart.{SmartString, from_boxed, from_inline, is_inline, new}
use smartstring.Smart.Cast.{is_inline-from_boxed, is_inline-from_inline}

-- `s` holds `text`, inline or in a block of its own, and `rest` is the heap without that block.
pub data Rep (rest : Heap) (text : List ℕ) (s : SmartString) (h : Heap) : Type 0 where
  inlined :
      (i : InlineString)
      → s ≡ from_inline i
      → InlineWf.Inlined text i
      → h ≡ rest
      → Rep rest text s h
  stored : (b : BoxedString) → s ≡ from_boxed b → Stored rest text b h → Rep rest text s h

module _ {text : List ℕ} {s : SmartString} where
  pub Inlined-is_inline :
      (i : InlineString) → s ≡ from_inline i → InlineWf.Inlined text i → is_inline s ≡ true
  Inlined-is_inline i e w = ap is_inline e ∙ is_inline-from_inline i w.wf

  pub Stored-is_inline :
      {rest : Heap} {h : Heap} (b : BoxedString)
      → s ≡ from_boxed b
      → Stored rest text b h
      → is_inline s ≡ false
  Stored-is_inline b e w = ap is_inline e ∙ is_inline-from_boxed b w.wf

-- An operation on the string inside keeps what the string owns.
pub Holds-Inlined :
    {i i' : InlineString} {text : List ℕ}
    → Holds ⦃g = InlineWf.generic⦄ i text i'
    → InlineWf.Inlined text i'
Holds-Inlined h = record { wf = h.wf; text_eq = h.text_eq }

pub Holds-Stored :
    {rest : Heap} {b b' : BoxedString} {text text' : List ℕ} {h : Heap}
    → Stored rest text b h
    → Holds ⦃g = BoxedWf.generic⦄ b text' b'
    → Stored rest text' b' h
Holds-Stored {rest} {b} {b'} {h} s held = record {
  wf = held.wf;
  owned = rw (held.place, same_cap) s.owned;
  text_eq = held.text_eq;
}
  where
    same_cap : b'.cap ≡ b.cap
    same_cap = sym held.wf.full ∙ held.room ∙ s.wf.full

-- A string that keeps the text of another.
pub Stored-text :
    {rest rest' : Heap} {text : List ℕ} {b b' : BoxedString} {h h' : Heap}
    → Stored rest text b h
    → Stored rest' (deref b) b' h'
    → Stored rest' text b' h'
Stored-text st st' = record { wf = st'.wf; owned = st'.owned; text_eq = st'.text_eq ∙ st.text_eq }

pub Inlined-length :
    {i : InlineString} {text : List ℕ} → InlineWf.Inlined text i → length text ≤ max_inline
Inlined-length {i} w = omega (arith, ap length w.text_eq, InlineWf.length-deref i w.wf, w.wf.fits)

pub Inlined-Room :
    {i : InlineString} {text : List ℕ}
    → InlineWf.Inlined text i
    → (n : ℕ) → n ≤ max_inline
    → Room ⦃g = InlineWf.generic⦄ i n
Inlined-Room w n h = record {
  enough = omega (arith, w.wf.full);
  addressable = omega (arith, w.wf.full);
}

pub Stored-Room :
    {rest : Heap} {b : BoxedString} {text : List ℕ} {h : Heap}
    → Stored rest text b h
    → (n : ℕ) → n ≤ b.cap
    → Room ⦃g = BoxedWf.generic⦄ b n
Stored-Room s n le = record {
  enough = omega (arith, s.wf.full);
  addressable = omega (arith, s.wf.full, s.wf.cap_lt);
}

-- A string that is inline is short enough to be.
pub inline-fits :
    {rest : Heap} {text : List ℕ} {s : SmartString} {h : Heap}
    → Rep rest text s h
    → is_inline s ≡ true
    → leb (length text) max_inline ≡ true
inline-fits (inlined i e w same) here = ground (arith, Inlined-length w)
inline-fits (stored b e st) here = cc (Stored-is_inline b e st)

-- It has no block.
pub inline-heap :
    {rest : Heap} {text : List ℕ} {s : SmartString} {h : Heap}
    → Rep rest text s h
    → is_inline s ≡ true
    → h ≡ rest
inline-heap (inlined i e w same) here = same
inline-heap (stored b e st) here = cc (Stored-is_inline b e st)

pub new-Rep : (rest : Heap) → Rep rest [] new rest
unfolding new
new-Rep rest = inlined Inline.new refl InlineWf.new-Inlined refl

pub is_inline-new : is_inline new ≡ true
unfolding new
is_inline-new = let w = InlineWf.new-Inlined in is_inline-from_inline Inline.new w.wf

-- Of two strings either may be taken for the older one.
pub Rep-swap :
    (rest : Heap) (text text' : List ℕ) (s s' : SmartString) (h h' : Heap)
    → Rep rest text s h
    → Rep h text' s' h'
    → (mid : Heap) × Rep rest text' s' mid × Rep mid text s h'
Rep-swap rest text text' s s' h h' (inlined i e w same) r' = (h', rw same at r', inlined i e w refl)
Rep-swap rest text text' s s' h h' (stored b e st) (inlined j f v same) =
    (rest, inlined j f v refl, rw same (stored b e st))
Rep-swap rest text text' s s' h h' (stored b e st) (stored c f st') =
    let (newer, older) =
      Owns-swap rest b.ptr c.ptr (block b.cap) (block c.cap) h h' st.owned st'.owned in
    (
      update rest c.ptr (some (block c.cap)),
      stored c f (record { wf = st'.wf; owned = newer; text_eq = st'.text_eq }),
      stored b e (record { wf = st.wf; owned = older; text_eq = st.text_eq }),
    )

-- A string and a `String` that is older.
pub IsString-swap :
    {rest : Heap} {t u : List ℕ} {i : RawString} {s : SmartString} {h h' : Heap}
    → IsString rest t i h
    → Rep h u s h'
    → (mid : Heap) × Rep rest u s mid × IsString mid t i h'
IsString-swap {rest} {h = h} w (inlined j e v same) = (rest, inlined j e v refl, rw same w)
IsString-swap w (stored b e st) =
    let (mid, kept, older) = OwnsString-swap b.ptr (block b.cap) w.owned st.owned in
    (
      mid,
      stored b e (record { wf = st.wf; owned = kept; text_eq = st.text_eq }),
      IsString-moved w older,
    )

-- And one that is newer.
pub IsString-swap_newer :
    {rest : Heap} {t u : List ℕ} {i : RawString} {s : SmartString} {h h' : Heap}
    → Rep rest u s h
    → IsString h t i h'
    → (mid : Heap) × IsString rest t i mid × Rep mid u s h'
IsString-swap_newer {h' = h'} (inlined j e v same) w = (h', rw (← same) w, inlined j e v refl)
IsString-swap_newer {rest} {i = i} {h = h} {h'} (stored b e st) w = elim w.owned [
  | without empty same ↦ (rest, IsString-moved w (without empty refl), rw same (stored b e st))
  | within pos o ↦
      let (newer, older) =
        Owns-swap rest b.ptr i.ptr (block b.cap) (bytes_layout i.capacity) h h' st.owned o in
      (
        update rest i.ptr (some (bytes_layout i.capacity)),
        IsString-moved w (within pos newer),
        stored b e (record { wf = st.wf; owned = older; text_eq = st.text_eq }),
      )
]
