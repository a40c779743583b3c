-- ===== src/Smart/Append/Laws.antt =====
-- A string that is put together holds all the texts, and the strings that were moved in are freed.
use smartstring.Smart.Methods.Extends.{local-Succeeds, grown_twice}
use smartstring.Smart.Methods.{extend}
use smartstring.Smart.Methods.Laws.{push_str-Post, grown_inline}
use smartstring.Boxed.Grow.{request_limit}
use smartstring.Smart.Rep.{is_inline-new, new-Rep, Rep}
use smartstring.Smart.{is_inline, SmartString}
use smartstring.Prelude.{
  ℕ, ◌+◌, ◌<◌, ◌≡◌, ◌∙◌, refl, ap, Bool, true, List, [], ◌∷◌, ◌++◌, arith, length, length-append,
  append_assoc, append-nil,
}
use smartstring.Run.{Run}
use smartstring.Heap.{Heap, Allocator}
use smartstring.Heap.Succeeds
use smartstring.Heap.Succeeds.{Succeeds, returns, gives_up}
use smartstring.Smart.{new}
use smartstring.Smart.Append.{Item, push_str, scoped, extend_owned, add, from_texts, from_owned}

-- All the texts, one after the other.
unfoldable pub concat : List (List ℕ) → List ℕ
concat [] = []
concat (t ∷ ts) = t ++ concat ts

concat-cons : (t : List ℕ) (ts : List (List ℕ)) → concat (t ∷ ts) ≡ t ++ concat ts
unfolding concat
concat-cons t ts = refl

-- Strings with their texts, whose blocks are on the heap beside `rest`.
pub data Strings {I : Type 0} ⦃i : Item I⦄ : Heap → List I → List (List ℕ) → Heap → Type 0 where
  none_left : {rest : Heap} → Strings rest [] [] rest
  one_more :
      {rest mid h : Heap} {t : I} {text : List ℕ} {ts : List I} {texts : List (List ℕ)}
      → Strings rest ts texts mid
      → i.Owned mid text t h
      → Strings rest (t ∷ ts) (text ∷ texts) h

-- The string holds `text`, and is inline as `here` and the text's length say.
abbrev pub Holding : Heap → Bool → List ℕ → SmartString → Heap → Type 0
Holding rest here text s h = Rep rest text s h × (is_inline s ≡ grown_inline here text)

module _ (a : Allocator) where
  -- A string is dropped that is older than the one at work.
  scoped-drops :
      {I : Type 0} ⦃i : Item I⦄ {A : Type 0} (rest mid : Heap) (tail : List ℕ) (t : I) (here : Bool)
      (text : List ℕ) {run : Run (SmartString × Heap) A}
      → i.Owned rest tail t mid
      → Succeeds a (λ x p. Holding mid here text p.0 p.1) run
      → Succeeds a (λ x p. Holding rest here text p.0 p.1) (scoped a t run)
  unfolding scoped
  scoped-drops ⦃i = i⦄ rest mid tail t here text r (returns {s = p} (rep, place)) =
      let (mid', rep', older) = i.swap r rep in rw (i.drop-Owned a older) (returns (rep', place))
  scoped-drops rest mid tail t here text r (gives_up e) = gives_up e

  -- One text is pushed.
  push_str-Holding :
      (rest : Heap) (here : Bool) (text string : List ℕ) (s : SmartString) (h : Heap)
      → Holding rest here text s h
      → length text + length string < request_limit
      → Succeeds a (λ _ p. Holding rest here (text ++ string) p.0 p.1) (push_str a string (s, h))
  push_str-Holding rest here text string s h (r, place) lim =
      Succeeds.mono (push_str-Post a rest text s h r string lim) λ _ p post. (
        post.rep,
        post.place ∙ ap (λ b. grown_inline b (text ++ string)) place ∙ grown_twice here text string,
      )

  extend-Holding :
      (rest : Heap) (here : Bool) (items : List (List ℕ)) (text : List ℕ) (s : SmartString)
      (h : Heap)
      → Holding rest here text s h
      → length text + length (concat items) < request_limit
      → Succeeds a (λ _ p. Holding rest here (text ++ concat items) p.0 p.1) (extend a items (s, h))
  unfolding extend concat
  extend-Holding rest here [] text s h held lim = returns (rw (append-nil text) held)
  extend-Holding rest here (item ∷ items) text s h held lim =
      let size = length-append item (concat items) in
      rw (← append_assoc text item (concat items)) (
        Succeeds.bind (push_str-Holding rest here text item s h held (omega (arith, lim, size)))
          λ _ p next.
            extend-Holding rest here items (text ++ item) p.0 p.1 next
              (omega (arith, lim, size, length-append text item)))

  -- When a string takes in a list of strings by value, each with a block of its own or inline,
  -- with all the texts together below 2^62 bytes: unless the allocator answers null, it holds all
  -- the texts in their order and is inline as the grown text says, and every block of the strings
  -- that were taken in has been freed.
  pub extend_owned-Holding :
      {I : Type 0} ⦃i : Item I⦄ (rest mid : Heap) (here : Bool) (items : List I)
      (texts : List (List ℕ)) (text : List ℕ) (s : SmartString) (h : Heap)
      → Strings rest items texts mid
      → Holding mid here text s h
      → length text + length (concat texts) < request_limit
      → Succeeds a
          (λ _ p. Holding rest here (text ++ concat texts) p.0 p.1)
          (extend_owned a items (s, h))
  unfolding extend_owned concat
  extend_owned-Holding rest mid here items texts text s h none_left held lim =
      returns (rw (append-nil text) held)
  extend_owned-Holding ⦃i = i⦄ rest mid here items texts text s h
        (one_more {mid = older} {t = t} {text = item} {ts = ts} {texts = more} strings r) held lim =
      let size = length-append item (concat more) in
      rw (i.text-Owned r, ← append_assoc text item (concat more))
        (Succeeds.bind
          (scoped-drops older mid item t here (text ++ item) r
            (push_str-Holding mid here text item s h held (omega (arith, lim, size))))
          λ _ p next.
            extend_owned-Holding rest older here ts more (text ++ item) p.0 p.1 strings next
              (omega (arith, lim, size, length-append text item)))

  -- `a + b`: the right one is dropped.
  add-Holding :
      {I : Type 0} ⦃i : Item I⦄ (rest mid : Heap) (here : Bool) (text tail : List ℕ)
      (s : SmartString) (t : I) (h : Heap)
      → Holding rest here text s mid
      → i.Owned mid tail t h
      → length text + length tail < request_limit
      → Succeeds a (Holding rest here (text ++ tail)) (add a s t h)
  unfolding add
  add-Holding ⦃i = i⦄ rest mid here text tail s t h (r, place) r' lim =
      let (mid', older, newer) = i.swap_newer r r' in
      local-Succeeds a (
        rw (i.text-Owned r') (
          scoped-drops rest mid' tail t here (text ++ tail) older
            (push_str-Holding mid' here text tail s h (newer, place) lim)))

  start : (rest : Heap) → Holding rest true [] new rest
  start rest = (new-Rep rest, is_inline-new)

  from_texts-Holding :
      (rest : Heap) (texts : List (List ℕ))
      → length (concat texts) < request_limit
      → Succeeds a (Holding rest true (concat texts)) (from_texts a texts rest)
  unfolding from_texts
  from_texts-Holding rest texts lim =
      local-Succeeds a
        (extend-Holding rest true texts [] new rest (start rest) (omega (arith, lim)))

  -- When a list of strings, each with a block of its own or inline, with all the texts together
  -- below 2^62 bytes, is collected into a string: unless the allocator answers null, the new
  -- string holds all the texts in their order and is inline exactly when they fit, and every block
  -- of the strings that were collected has been freed.
  pub from_owned-Holding :
      {I : Type 0} ⦃i : Item I⦄ (rest h : Heap) (items : List I) (texts : List (List ℕ))
      → Strings rest items texts h
      → length (concat texts) < request_limit
      → Succeeds a (Holding rest true (concat texts)) (from_owned a items h)
  unfolding from_owned
  from_owned-Holding rest h items texts strings lim =
      local-Succeeds a (
        extend_owned-Holding rest h true items texts [] new h strings (start h)
          (omega (arith, lim)))
