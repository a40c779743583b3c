-- ===== src/Smart/Macros/Splits.antt =====
-- `string_op_shrink!` where the operation makes a second string: each string then owns a block of
-- its own, or none.
use smartstring.Boxed.{BoxedString}
use smartstring.Smart.Macros.Shrink.{try_demote-Post}
use smartstring.Smart.Cast.{
  is_inline-from_inline, cast-from_inline, is_inline-from_boxed, cast-from_boxed,
}
use smartstring.Smart.Convert.Laws.{Made}
use smartstring.Inline.{InlineString, max_inline}
use smartstring.Generic.{Holds, GenericString}
use smartstring.Ops.{ShrinkOp}
use smartstring.Smart.{from_inline, from_boxed, dealloc, cast, is_inline, Mode, SmartString}
use smartstring.Prelude.{ℕ, ◌≡◌, ◌∙◌, refl, ap, Bool, ◌&&◌, ◌||◌, List, leb, length}
use smartstring.Heap.{Heap, Allocator}
use smartstring.Heap.Succeeds
use smartstring.Heap.Succeeds.{always, map_returns, Succeeds, returns, gives_up}
use smartstring.Smart.Macros.{shrink_cast, string_op_shrink}
use smartstring.Inline.Wf as InlineWf
use smartstring.Boxed.Wf as BoxedWf
use smartstring.Smart.Rep.{
  Holds-Inlined, Inlined-is_inline, Holds-Stored, Rep-swap, Stored-is_inline, Rep, stored, inlined,
}

-- Both strings, in a heap that is `rest` but for their blocks.
pub record Both (rest : Heap) (text tail : List ℕ) (inside : Bool) (t : SmartString)
    (p : SmartString × Heap) : Type 0 where
  pub mid : Heap
  pub rep_tail : Rep rest tail t mid
  pub rep : Rep mid text p.0 p.1
  pub place : is_inline p.0 ≡ inside
  place_tail : is_inline t ≡ leb (length tail) max_inline

-- On every string with the text `before` the operation leaves `text` and makes a string of `tail`.
abbrev pub Parts : Allocator → ShrinkOp SmartString → List ℕ → List ℕ → List ℕ → Type 1
Parts a o before text tail =
    (S : Type 0) (g : GenericString S) (s : S) (h : Heap)
    → g.IsWf s
    → g.deref s ≡ before
    → Succeeds a (λ t p. Made a h tail t p.1 × Holds ⦃g = g⦄ s text p.0) (o.op S g (s, h))

module _ (a : Allocator) (m : Mode) (o : ShrinkOp SmartString) (rest : Heap)
    (before text tail : List ℕ) (parts : Parts a o before text tail) where
  run_splits :
      (s : SmartString) (h : Heap)
      → Rep rest before s h
      → Succeeds a (Both rest text tail (is_inline s)) (shrink_cast a m o (cast s) (s, h))
  unfolding shrink_cast
  run_splits s h (stored b e st) =
      rw (ap cast e ∙ cast-from_boxed b st.wf, Stored-is_inline b e st)
        (map_returns (λ (c, h'). (from_boxed c, h'))
          (parts BoxedString BoxedWf.generic b h st.wf st.text_eq)
          λ t p (made, held).
            let (mid, older, newer) =
              Rep-swap rest text tail (from_boxed p.0) t h p.1
                (stored p.0 refl (Holds-Stored st held)) made.0 in
            record {
              mid = mid;
              rep_tail = older;
              rep = newer;
              place = is_inline-from_boxed p.0 held.wf;
              place_tail = made.1;
            })
  run_splits s h (inlined i e w same) =
      rw (ap cast e ∙ cast-from_inline i w.wf, Inlined-is_inline i e w)
        (map_returns (λ (c, h'). (from_inline c, h'))
          (parts InlineString InlineWf.generic i h w.wf w.text_eq)
          λ t p (made, held).
            let (mid, older, newer) =
              Rep-swap rest text tail (from_inline p.0) t h p.1
                (inlined p.0 refl (Holds-Inlined held) same) made.0 in
            record {
              mid = mid;
              rep_tail = older;
              rep = newer;
              place = is_inline-from_inline p.0 held.wf;
              place_tail = made.1;
            })

  pub string_op_shrink-Both :
      (s : SmartString) (h : Heap)
      → Rep rest before s h
      → Succeeds a
          (Both rest text tail (is_inline s || (dealloc m && leb (length text) max_inline)))
          (string_op_shrink a m o (s, h))
  unfolding string_op_shrink
  string_op_shrink-Both s h r = Succeeds.bind (run_splits s h r) λ t p both.
      Succeeds.bind (always (try_demote-Post a both.mid text m p.0 p.1 both.rep))
        λ _ q (rep, place). returns (record {
          mid = both.mid;
          rep_tail = both.rep_tail;
          rep = rep;
          place = place ∙ ap (λ b. b || (dealloc m && leb (length text) max_inline)) both.place;
          place_tail = both.place_tail;
        })
