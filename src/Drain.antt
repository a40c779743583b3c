-- ===== src/Drain.antt =====
-- iter.rs: the draining iterator. It holds the string's exclusive borrow, so the bytes that are left
-- to iterate over are a field of the iterator, and the string is the state that it works on.
pub mod Chars
pub mod Laws
use smartstring.Utf8.{get_range, is_char_boundary}
use smartstring.Smart.Macros.{Method}
use smartstring.Smart.{Mode}
use smartstring.Ops.{bounds_for, RangeBounds, included, excluded}
use smartstring.Prelude.{
  ℕ, zero, suc, ◌+◌, ◌-◌, ◌*◌, ◌≤◌, ◌<◌, ◌≡◌, ◌∙◌, ◌↔◌, ◌⊎◌, refl, sym, ap, inl, inr, Bool, true,
  false, not, ◌&&◌, ◌||◌, List, [], ◌∷◌, ◌++◌, Option, none, some, arith, ltb, leb, ◌==◌,
  if◌then◌else◌, Bool-cases, Option-cases, length, take, length-append, append_assoc, append-nil,
  All,
}
use smartstring.Run.{
  Run, M, done, panicked, aborted, undefined, diverged, pure, panic, gets, unwrap, assert, ◌>>=◌,
  ◌>>◌, and_then, map_state, on_first, on_second,
}
use smartstring.Heap.{Heap, Allocator}
use smartstring.Heap.Succeeds
use smartstring.Heap.Succeeds.{Succeeds, returns, gives_up}
use smartstring.Smart.Convert as Convert
use smartstring.Smart.Methods as Methods
use smartstring.Drain.Chars as Chars

pub record Drain : Type 0 where
  pub start : ℕ
  pub end : ℕ
  pub iter : List ℕ

-- `start..end`
abbrev pub half_open : ℕ → ℕ → RangeBounds
half_open start end = record { start_bound = included start; end_bound = excluded end }

-- `Drain::new`
pub new : RangeBounds → Method Drain
new range = do
  text ← gets (λ p. Convert.deref p.0)
  len ← gets (λ p. Convert.len p.0)
  (start, end) ← unwrap (bounds_for range len)
  assert (leb start end)
  assert (leb end len)
  assert (is_char_boundary text start)
  assert (is_char_boundary text end)
  iter ← unwrap (get_range text start end)
  pure (record { start = start; end = end; iter = iter })

pub next : Drain → Option ℕ × Drain
next d = let (item, iter) = Chars.next d.iter in (item, record d { iter = iter })

pub next_back : Drain → Option ℕ × Drain
next_back d = let (item, iter) = Chars.next_back d.iter in (item, record d { iter = iter })

pub size_hint : Drain → ℕ × Option ℕ
size_hint d = Chars.size_hint d.iter

-- `Debug`: "Drain { ... }"
pub fmt : {R : Type 0} → (List ℕ → R) → Drain → R
fmt pad d =
    pad (
      0x44 ∷ 0x72 ∷ 0x61 ∷ 0x69 ∷ 0x6e ∷ 0x20 ∷ 0x7b ∷ 0x20 ∷ 0x2e ∷ 0x2e ∷ 0x2e ∷ 0x20 ∷ 0x7d ∷ [])

-- `impl Drop`
pub drop : Allocator → Mode → Drain → Method (Unit {0})
drop a m d = Methods.replace_range a m (half_open d.start d.end) []

-- A user's calls of the iterator, from either end.
pub data Pull : Type 0 where
  front back : Pull

pub pull : Pull → Drain → Option ℕ × Drain
unfolding next next_back
pull front d = next d
pull back d = next_back d

pub pulls : List Pull → Drain → List (Option ℕ) × Drain
unfolding pull
pulls [] d = ([], d)
pulls (p ∷ ps) d =
    let (item, d') = pull p d in let (items, d'') = pulls ps d' in (item ∷ items, d'')

-- The iterator is made, used, and dropped.
pub drained : Allocator → Mode → RangeBounds → List Pull → Method (List (Option ℕ))
unfolding pulls new drop
drained a m range ps = do d ← new range; let (items, d') = pulls ps d; drop a m d'; pure items
