-- ===== src/Model/Bounds.antt =====
-- test.rs: `TestBounds`, and when the tests expect a panic.
use smartstring.Smart.Rep.{Rep}
use smartstring.Heap.{Heap}
use smartstring.Utf8.Laws.{boundary_start, boundary_le, boundary_end}
use smartstring.Ops.ReplaceRange.{in_text, InText}
use smartstring.Smart.{SmartString}
use smartstring.Utf8.{get_from, get_range, is_char_boundary}
use smartstring.Smart.Index
use smartstring.Ops.{end_of, start_of, bounds_for, RangeBounds, included, excluded, unbounded}
use smartstring.Prelude.{
  ◌≤◌, length-drop, take_all, usize_mod, ℕ, ◌+◌, ◌-◌, ◌<◌, ◌≡◌, ◌∙◌, ◌⊎◌, refl, sym, ap, inl, inr,
  Bool, true, false, not, ◌||◌, List, Option, none, some, arith, ltb, ◌==◌, if◌then◌else◌,
  Bool-cases, length, take, drop,
}

pub data TestBounds : Type 0 where
  range : ℕ → ℕ → TestBounds
  from : ℕ → TestBounds
  to : ℕ → TestBounds
  full : TestBounds
  inclusive : ℕ → ℕ → TestBounds
  to_inclusive : ℕ → TestBounds

abbrev pub usize_max : ℕ
usize_max = usize_mod - 1

-- `TestBounds::should_panic`
pub should_panic : TestBounds → List ℕ → Bool
should_panic (range start end) control =
    ltb end start
    || (ltb (length control) start
        || (ltb (length control) end
            || (not (is_char_boundary control start) || not (is_char_boundary control end))))
should_panic (from start) control =
    ltb (length control) start || not (is_char_boundary control start)
should_panic (to end) control = ltb (length control) end || not (is_char_boundary control end)
should_panic full control = false
should_panic (inclusive start end) control =
    (end == usize_max)
    || (ltb (end + 1) start
        || (ltb (length control) start
            || (ltb (length control) end
                || (not (is_char_boundary control start)
                    || not (is_char_boundary control (end + 1))))))
should_panic (to_inclusive end) control =
    ltb (length control) end || not (is_char_boundary control (end + 1))

-- The range that the tests call the methods with.
pub to_range : TestBounds → RangeBounds
to_range (range start end) = record { start_bound = included start; end_bound = excluded end }
to_range (from start) = record { start_bound = included start; end_bound = unbounded }
to_range (to end) = record { start_bound = unbounded; end_bound = excluded end }
to_range full = record { start_bound = unbounded; end_bound = unbounded }
to_range (inclusive start end) = record { start_bound = included start; end_bound = included end }
to_range (to_inclusive end) = record { start_bound = unbounded; end_bound = included end }

-- The subject's side of `TestBounds::assert_range`.
pub index : TestBounds → SmartString → Option (List ℕ)
index (range start end) s = Index.index_range s start end
index (from start) s = Index.index_from s start
index (to end) s = Index.index_to s end
index full s = Index.index_full s
index (inclusive start end) s = Index.index_inclusive s start end
index (to_inclusive end) s = Index.index_to_inclusive s end

-- Where a range starts and ends.
abbrev pub starts : TestBounds → ℕ
starts (range start end) = start
starts (from start) = start
starts (inclusive start end) = start
starts _ = 0

abbrev pub ends : TestBounds → List ℕ → ℕ
ends (range start end) text = end
ends (to end) text = end
ends (inclusive start end) text = end + 1
ends (to_inclusive end) text = end + 1
ends _ text = length text

-- The bytes between.
abbrev pub between : TestBounds → List ℕ → List ℕ
between b text = take (ends b text - starts b) (drop (starts b) text)

-- A range that should not panic is in order and ends on boundaries.
pub record Within (b : TestBounds) (text : List ℕ) : Type 0 where
  pub ordered : starts b ≤ ends b text
  pub inside : ends b text ≤ length text
  pub from_char : is_char_boundary text (starts b) ≡ true
  pub to_char : is_char_boundary text (ends b text) ≡ true

pub should_panic-Within :
    (text : List ℕ) (b : TestBounds) → should_panic b text ≡ false → Within b text
unfolding should_panic
should_panic-Within text (range start end) ok = record {
  ordered = ground arith;
  inside = ground arith;
  from_char = ground arith;
  to_char = ground arith;
}
should_panic-Within text (from start) ok = record {
  ordered = ground arith;
  inside = omega arith;
  from_char = ground arith;
  to_char = boundary_end text;
}
should_panic-Within text (to end) ok = record {
  ordered = omega arith;
  inside = ground arith;
  from_char = boundary_start text;
  to_char = ground arith;
}
should_panic-Within text full ok = record {
  ordered = omega arith;
  inside = omega arith;
  from_char = boundary_start text;
  to_char = boundary_end text;
}
should_panic-Within text (inclusive start end) ok = record {
  ordered = ground arith;
  inside = ground (arith, boundary_le text (end + 1));
  from_char = ground arith;
  to_char = ground arith;
}
should_panic-Within text (to_inclusive end) ok = record {
  ordered = omega arith;
  inside = ground (arith, boundary_le text (end + 1));
  from_char = boundary_start text;
  to_char = ground arith;
}

module _ (text : List ℕ) (lim : length text < usize_max) where
  -- A range that should not panic is in the text, with both ends on boundaries.
  pub should_panic-InText :
      (b : TestBounds)
      → should_panic b text ≡ false
      → InText (to_range b) text (starts b) (ends b text)
  unfolding should_panic to_range bounds_for start_of end_of in_text
  should_panic-InText (range start end) no_panic = record { found = refl; checked = ground arith }
  should_panic-InText (from start) no_panic = record {
    found = refl;
    checked = ground (arith, boundary_end text);
  }
  should_panic-InText (to end) no_panic = record {
    found = refl;
    checked = ground (arith, boundary_start text);
  }
  should_panic-InText full no_panic = record {
    found = refl;
    checked = ground (arith, boundary_start text, boundary_end text);
  }
  should_panic-InText (inclusive start end) no_panic = record {
    found = ground arith;
    checked = ground (arith, boundary_le text (end + 1));
  }
  should_panic-InText (to_inclusive end) no_panic = record {
    found = ground arith;
    checked = ground (arith, boundary_start text, boundary_le text (end + 1));
  }

  -- One that should is not.
  pub should_panic-outside :
      (b : TestBounds)
      → should_panic b text ≡ true
      → (bounds_for (to_range b) (length text) ≡ none)
        ⊎ ((bounds_for (to_range b) (length text) ≡ some (starts b, ends b text))
            × (in_text text (starts b) (ends b text) ≡ false))
  unfolding should_panic to_range bounds_for start_of end_of in_text
  should_panic-outside (range start end) panics = inr (refl, ground arith)
  should_panic-outside (from start) panics = inr (refl, ground arith)
  should_panic-outside (to end) panics = inr (refl, ground arith)
  should_panic-outside full panics = cc
  should_panic-outside (inclusive start end) panics = elim (Bool-cases (ltb (end + 1) usize_mod)) [
    | inl fits ↦ inr (ground (arith, fits), ground (arith, boundary_le text (end + 1)))
    | inr over ↦ inl (ground (arith, over))
  ]
  should_panic-outside (to_inclusive end) panics = elim (Bool-cases (ltb (end + 1) usize_mod)) [
    | inl fits ↦ inr (ground (arith, fits), ground (arith, boundary_le text (end + 1)))
    | inr over ↦ inl (ground (arith, over))
  ]

  -- Indexing answers the bytes between, and panics exactly where the tests expect it.
  pub index-should_panic :
      {rest : Heap} {s : SmartString} {h : Heap}
      → Rep rest text s h
      → (b : TestBounds) → index b s ≡ (if should_panic b text then none else some (between b text))
  unfolding index should_panic get_range get_from
  index-should_panic r (range start end) =
      Index.index_range-Rep r start end ∙ ground (arith, boundary_le text end)
  index-should_panic r (from start) =
      let tail : take (length text - start) (drop start text) ≡ drop start text =
        take_all (length text - start) (drop start text) (omega (arith, length-drop start text)) in
      Index.index_from-Rep r start ∙ rw tail (ground (arith, boundary_le text start))
  index-should_panic r (to end) =
      Index.index_to-Rep r end ∙ ground (arith, boundary_start text, boundary_le text end)
  index-should_panic r full =
      Index.index_full-Rep r ∙ ap some (sym (take_all (length text - 0) text (omega arith)))
  index-should_panic r (inclusive start end) =
      Index.index_inclusive-Rep r start end ∙ ground (arith, boundary_le text (end + 1))
  index-should_panic r (to_inclusive end) =
      Index.index_to_inclusive-Rep r end
      ∙ ground (arith, boundary_start text, boundary_le text (end + 1))
