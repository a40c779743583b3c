-- ===== src/Smart/Index.antt =====
-- `impl Index` for the six kinds of range; `none` is the panic.
use smartstring.Smart.Convert.Laws.{deref-Rep}
use smartstring.Smart.Rep.{Rep}
use smartstring.Utf8.{get_from, get_range}
use smartstring.Smart.{SmartString}
use smartstring.Prelude.{
  usize_mod, ℕ, ◌+◌, ◌-◌, ◌≡◌, refl, List, Option, none, some, ◌==◌, if◌then◌else◌,
}
use smartstring.Heap.{Heap}
use smartstring.Smart.Convert.{deref}

-- What `str` does with a range that includes its end.
get_inclusive : List ℕ → ℕ → ℕ → Option (List ℕ)
get_inclusive text start end = if end == usize_mod - 1 then none else get_range text start (end + 1)

module _ (s : SmartString) where
  pub index_range : ℕ → ℕ → Option (List ℕ)
  index_range start end = get_range (deref s) start end

  pub index_to : ℕ → Option (List ℕ)
  index_to end = get_range (deref s) 0 end

  pub index_from : ℕ → Option (List ℕ)
  index_from start = get_from (deref s) start

  pub index_full : Option (List ℕ)
  index_full = some (deref s)

  pub index_inclusive : ℕ → ℕ → Option (List ℕ)
  index_inclusive start end = get_inclusive (deref s) start end

  pub index_to_inclusive : ℕ → Option (List ℕ)
  index_to_inclusive end = get_inclusive (deref s) 0 end

module _ {rest : Heap} {text : List ℕ} {s : SmartString} {h : Heap} (r : Rep rest text s h) where
  pub index_range-Rep : (start end : ℕ) → index_range s start end ≡ get_range text start end
  unfolding index_range
  index_range-Rep start end = rw (deref-Rep r) refl

  pub index_to-Rep : (end : ℕ) → index_to s end ≡ get_range text 0 end
  unfolding index_to
  index_to-Rep end = rw (deref-Rep r) refl

  pub index_from-Rep : (start : ℕ) → index_from s start ≡ get_from text start
  unfolding index_from
  index_from-Rep start = rw (deref-Rep r) refl

  pub index_full-Rep : index_full s ≡ some text
  unfolding index_full
  index_full-Rep = rw (deref-Rep r) refl

  pub index_inclusive-Rep :
      (start end : ℕ)
      → index_inclusive s start end
        ≡ (if end == usize_mod - 1 then none else get_range text start (end + 1))
  unfolding index_inclusive get_inclusive
  index_inclusive-Rep start end = rw (deref-Rep r) refl

  pub index_to_inclusive-Rep :
      (end : ℕ)
      → index_to_inclusive s end
        ≡ (if end == usize_mod - 1 then none else get_range text 0 (end + 1))
  unfolding index_to_inclusive get_inclusive
  index_to_inclusive-Rep end = rw (deref-Rep r) refl
