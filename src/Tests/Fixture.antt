-- ===== src/Tests/Fixture.antt =====
-- An allocator with two addresses to give, and some texts and strings.
use smartstring.Boxed.Takeover.{Global}
use smartstring.Prelude.{
  ℕ, ◌-◌, ◌%◌, ◌^◌, ◌<◌, ◌≡◌, refl, Bool, true, false, List, [], ◌∷◌, ◌++◌, Option, none, some,
  arith, ◌==◌, if◌then◌else◌, length, replicate, take, length-replicate, ap, sym, ◌∙◌, inl, inr,
  Bool-cases,
}
use smartstring.Heap.{Heap, Layout, Allocator, Granted, update}
use smartstring.Utf8.{IsUtf8}
use smartstring.Utf8.Boundary.{ascii-IsUtf8}
use smartstring.Utf8.{IsScalar, first_char, last_char}
use smartstring.Utf8.Laws.{
  one_byte, first_char-encode, last_char-encode, boundary_start, boundary_inside,
}
use smartstring.Ops.{RangeBounds, included, excluded, bounds_for_half_open}
use smartstring.Ops.ReplaceRange.{InText, in_text_inside}
use smartstring.Inline.{InlineString}
use smartstring.Inline.Wf as InlineWf
use smartstring.Boxed.{BoxedString}
use smartstring.Boxed.Wf as BoxedWf
use smartstring.Boxed.Blocks.{Stored, block}
use smartstring.Smart.{from_boxed, from_inline, is_inline}
use smartstring.Smart.Rep.{Inlined-is_inline, Rep, inlined, stored}

is_free : Heap → ℕ → ℕ → Bool
is_free h align p = elim (h p) [ none ↦ p % align == 0 | some _ ↦ false ]

pub pick : Heap → ℕ → Option ℕ
pick h align =
    if is_free h align 4096 then some 4096 else if is_free h align 8192 then some 8192 else none

pub give : Option ℕ → ℕ → Option (ℕ × List ℕ)
give none n = none
give (some p) n = some (p, replicate n 0)

free-Granted :
    (h : Heap) (l : Layout) (p : ℕ)
    → 0 < p
    → p < 2 ^ 64
    → is_free h l.align p ≡ true
    → Granted h l p
unfolding is_free
free-Granted h l p pos lim e = record {
  unused = ground arith;
  nonnull = pos;
  aligned = ground arith;
  in_range = lim;
}

give-some : (q n p : ℕ) (b : List ℕ) → give (some q) n ≡ some (p, b) → (q ≡ p) × (replicate n 0 ≡ b)
unfolding give
give-some q n p b e = (cc, cc)

give-Granted :
    (h : Heap) (l : Layout) (q n p : ℕ) (b : List ℕ)
    → 0 < q
    → q < 2 ^ 64
    → is_free h l.align q ≡ true
    → give (some q) n ≡ some (p, b)
    → Granted h l p × (length b ≡ n)
give-Granted h l q n p b pos lim free e =
    let (same, zeros) = give-some q n p b e in
    (rw (← same) (free-Granted h l q pos lim free), ap length (sym zeros) ∙ length-replicate n 0)

pub pick-Granted :
    (h : Heap) (l : Layout) (n p : ℕ) (b : List ℕ)
    → give (pick h l.align) n ≡ some (p, b)
    → Granted h l p × (length b ≡ n)
unfolding pick
pick-Granted h l n p b e = elim (Bool-cases (is_free h l.align 4096)) [
  | inl low ↦ give-Granted h l 4096 n p b (omega arith) (omega arith) low (rw (low, pick) at e)
  | inr taken ↦ elim (Bool-cases (is_free h l.align 8192)) [
    | inl high ↦
        give-Granted h l 8192 n p b (omega arith) (omega arith) high (rw (taken, high) at e)
    | inr full ↦ absurd (nothing (rw (taken, full) at e))
  ]
]
  where
    nothing : give none n ≡ some (p, b) → ⊥
    nothing f = unfold give in cc

-- `realloc` asks for the bytes behind those that are kept.
unfoldable pub small_allocator : Allocator
unfolding is_free pick give
small_allocator = record {
  alloc = λ h l. give (pick h l.align) l.size;
  realloc = λ h old l n. give (pick h l.align) (n - l.size);
  alloc_granted = λ h l p b e. pick-Granted h l l.size p b e;
  realloc_granted = λ h old l n p b e. pick-Granted h l (n - l.size) p b e;
}

abbrev pub no_blocks : Heap
no_blocks p = none

-- "hello"
abbrev pub hello : List ℕ
hello = 0x68 ∷ 0x65 ∷ 0x6c ∷ 0x6c ∷ 0x6f ∷ []

-- Thirty bytes, which do not fit inline.
abbrev pub thirty : List ℕ
thirty = replicate 30 0x61

-- "hello" inline.
pub hello_inline : InlineString
hello_inline = (InlineWf.from_str-Inlined hello (omega arith)).0

pub hello-Rep : Rep no_blocks hello (from_inline hello_inline) no_blocks
unfolding hello_inline
hello-Rep = inlined hello_inline refl ((InlineWf.from_str-Inlined hello (omega arith)).2) refl

pub hello_is_inline : is_inline (from_inline hello_inline) ≡ true
unfolding hello_inline
hello_is_inline =
    Inlined-is_inline hello_inline refl ((InlineWf.from_str-Inlined hello (omega arith)).2)

pub hello-IsUtf8 : IsUtf8 hello
hello-IsUtf8 =
    ascii-IsUtf8 hello (omega arith, (omega arith, (omega arith, (omega arith, (omega arith, tt)))))

-- The thirty bytes in a block of the minimal capacity.
abbrev pub thirty_box : BoxedString
thirty_box = record { ptr = 4096; cap = 46; len = 30; buffer = thirty ++ replicate 16 0 }

abbrev pub thirty_heap : Heap
thirty_heap = update no_blocks 4096 (some (block 46))

pub thirty-Stored : Stored no_blocks thirty thirty_box thirty_heap
thirty-Stored = record {
  wf = w;
  owned = record { live = refl; unused = refl };
  text_eq =
      BoxedWf.wf_deref thirty_box w
      ∙ ap (λ n. take n thirty_box.buffer) (BoxedWf.length-deref thirty_box w);
}
  where
    w : BoxedWf.IsWf thirty_box
    w = record {
      fits = omega arith;
      full = refl;
      cap_pos = omega arith;
      cap_lt = omega arith;
      nonnull = omega arith;
      even = refl;
      in_range = omega arith;
    }

pub thirty-Rep : Rep no_blocks thirty (from_boxed thirty_box) thirty_heap
thirty-Rep = stored thirty_box refl thirty-Stored

hello_last : last_char hello ≡ some 0x6f
hello_last =
    let hell : List ℕ = 0x68 ∷ 0x65 ∷ 0x6c ∷ 0x6c ∷ [] in
    let scalar : IsScalar 0x6f = inl (omega arith) in
    let ascii : 0x6f < 0x80 = omega arith in
    rw (one_byte 0x6f ascii) at (last_char-encode hell 0x6f scalar)

hello_first : first_char hello ≡ some 0x68
hello_first =
    let ello : List ℕ = 0x65 ∷ 0x6c ∷ 0x6c ∷ 0x6f ∷ [] in
    let scalar : IsScalar 0x68 = inl (omega arith) in
    let ascii : 0x68 < 0x80 = omega arith in
    rw (one_byte 0x68 ascii) at (first_char-encode 0x68 ello scalar)

-- A letter of two bytes.
abbrev pub e_acute : List ℕ
e_acute = 0xc3 ∷ 0xa9 ∷ []

pub e_acute_inline : InlineString
e_acute_inline = (InlineWf.from_str-Inlined e_acute (omega arith)).0

pub e_acute-Rep : Rep no_blocks e_acute (from_inline e_acute_inline) no_blocks
unfolding e_acute_inline
e_acute-Rep = inlined e_acute_inline refl ((InlineWf.from_str-Inlined e_acute (omega arith)).2) refl

-- The first two bytes of "hello".
abbrev pub first_two : RangeBounds
first_two = record { start_bound = included 0; end_bound = excluded 2 }

pub first_two-InText : InText first_two hello 0 2
first_two-InText = record {
  found = bounds_for_half_open 0 2 5;
  checked =
      in_text_inside hello 0 2 (omega arith) (omega arith) (boundary_start hello)
        (boundary_inside hello 2 (omega arith) (omega arith));
}

-- "hello" inline, on any heap.
pub hello_at : (h : Heap) → Rep h hello (from_inline hello_inline) h
unfolding hello_inline
hello_at h = inlined hello_inline refl ((InlineWf.from_str-Inlined hello (omega arith)).2) refl

-- Beside the block of the thirty bytes.
pub hello_beside : Rep thirty_heap hello (from_inline hello_inline) thirty_heap
unfolding hello_inline
hello_beside = inlined hello_inline refl ((InlineWf.from_str-Inlined hello (omega arith)).2) refl

-- The same two addresses for a block that grows.
unfoldable pub small_global : Global
unfolding is_free pick give
small_global = record {
  base = small_allocator;
  grow = λ h p old new. give (pick h new.align) (new.size - old.size);
  grow_granted = λ h p old new q b e. pick-Granted h new (new.size - old.size) q b e;
}
