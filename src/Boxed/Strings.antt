-- ===== src/Boxed/Strings.antt =====
-- The standard library's `String`, with the block that it owns.
use smartstring.Prelude.{
  ==_iff, take_all, isize_max, ℕ, ◌≤◌, ◌<◌, ◌≡◌, refl, ap, inl, inr, false, List, [], none, some,
  arith, ◌==◌, if◌then◌else◌, Bool-cases, Option-cases, length, take,
}
use smartstring.Run.{M, done, aborted, pure}
use smartstring.Request.{block_of}
use smartstring.Heap.{Owns, update, Layout, Heap, Allocator}
use smartstring.Heap.Succeeds.{Succeeds, returns, gives_up}
use smartstring.Boxed.{release}
use smartstring.Heap.{Owns-swap}
use smartstring.Boxed.Blocks.{release_lem}

-- A `String` with its block: all the bytes of the block, of which `len` are its text. Without a
-- capacity it has no block.
pub record RawString : Type 0 where
  pub ptr : ℕ
  pub capacity : ℕ
  pub len : ℕ
  pub bytes : List ℕ

abbrev pub text_of : RawString → List ℕ
text_of s = take s.len s.bytes

-- `Layout::array::<u8>`, with which the standard library allocates a `String`.
abbrev pub bytes_layout : ℕ → Layout
bytes_layout capacity = record { size = capacity; align = 1 }

module _ (a : Allocator) where
  -- The standard library's `drop` of a `String`, and its `String::from(&str)`.
  pub drop_string : RawString → M Heap (Unit {0})
  drop_string s = if s.capacity == 0 then pure tt else release a s.ptr (bytes_layout s.capacity)

  pub copy_string : List ℕ → M Heap RawString
  copy_string text h =
      if length text == 0
      then done (record { ptr = 1; capacity = 0; len = 0; bytes = [] }) h
      else (elim (a.alloc h (bytes_layout (length text))) [
        | none ↦ aborted (block_of h (bytes_layout (length text)))
        | some (p, b) ↦
            done (record { ptr = p; capacity = length text; len = length text; bytes = text })
              (update h p (some (bytes_layout (length text))))
      ])

-- The block of a `String`, which one without a capacity has not.
pub data OwnsString (rest : Heap) (s : RawString) (h : Heap) : Type 0 where
  without : s.capacity ≡ 0 → h ≡ rest → OwnsString rest s h
  within : 0 < s.capacity → Owns rest s.ptr (bytes_layout s.capacity) h → OwnsString rest s h

-- A `String` that holds the text.
pub record IsString (rest : Heap) (text : List ℕ) (s : RawString) (h : Heap) : Type 0 where
  pub fits : s.len ≤ s.capacity
  pub full : length s.bytes ≡ s.capacity
  pub capacity_lt : s.capacity < isize_max
  pub text_eq : text_of s ≡ text
  pub owned : OwnsString rest s h

pub IsString-moved :
    {rest rest' : Heap} {text : List ℕ} {s : RawString} {h h' : Heap}
    → IsString rest text s h
    → OwnsString rest' s h'
    → IsString rest' text s h'
IsString-moved w o = record {
  fits = w.fits;
  full = w.full;
  capacity_lt = w.capacity_lt;
  text_eq = w.text_eq;
  owned = o;
}

-- Of a `String` and a boxed string that is newer either may be taken for the older one.
pub OwnsString-swap :
    {rest : Heap} {s : RawString} {h : Heap} (p : ℕ) (l : Layout) {h' : Heap}
    → OwnsString rest s h
    → Owns h p l h'
    → (mid : Heap) × Owns rest p l mid × OwnsString mid s h'
OwnsString-swap {h = h} p l {h'} (without empty same) o = (h', rw (← same) o, without empty refl)
OwnsString-swap {rest} {s} {h} p l {h'} (within pos old) o =
    let (kept, older) = Owns-swap rest s.ptr p _ l h h' old o in
    (update rest p (some l), kept, within pos older)

module _ (a : Allocator) where
  pub drop_string_lem :
      (rest : Heap) (s : RawString) (h : Heap)
      → OwnsString rest s h
      → drop_string a s h ≡ done tt rest
  unfolding drop_string
  drop_string_lem rest s h (without empty same) = rw empty (ap (done tt) same)
  drop_string_lem rest s h (within pos o) =
      let some_bytes : (s.capacity == 0) ≡ false = ground arith in
      rw some_bytes (release_lem a rest s.ptr _ h o)

  -- The `String` is made while the boxed string still has its block.
  pub copy_string-IsString :
      (text : List ℕ) (h : Heap)
      → length text < isize_max
      → Succeeds a
          (λ s h'. IsString h text s h' × (length text ≡ s.capacity))
          (copy_string a text h)
  unfolding copy_string
  copy_string-IsString text h lim = elim (Bool-cases (length text == 0)) [
    | inl empty ↦ rw empty (
        returns {x = record { ptr = 1; capacity = 0; len = 0; bytes = [] }} (
          record {
            fits = omega arith;
            full = refl;
            capacity_lt = omega arith;
            text_eq = take_all 0 text (omega (arith, (==_iff (length text) 0).0 empty));
            owned = without refl refl;
          },
          (==_iff (length text) 0).0 empty,
        ))
    | inr some_text ↦ rw some_text (elim (Option-cases (a.alloc h (bytes_layout (length text)))) [
      | inl null ↦ rw null (gives_up null)
      | inr ((p, b), e) ↦
          let (granted, _) = a.alloc_granted h _ p b e in
          rw e (
            returns
              {x = record { ptr = p; capacity = length text; len = length text; bytes = text }}
              (
                record {
                  fits = omega arith;
                  full = refl;
                  capacity_lt = lim;
                  text_eq = take_all _ text (omega arith);
                  owned = within (ground arith) (record { live = refl; unused = granted.unused });
                },
                refl,
              ))
    ])
  ]
