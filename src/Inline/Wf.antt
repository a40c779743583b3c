-- ===== src/Inline/Wf.antt =====
-- The invariant of an inline string, and its operations as an instance of `GenericString`.
use smartstring.Prelude.{
  ℕ, ◌%◌, ◌≤◌, ◌≡◌, ◌∙◌, refl, ap, List, [], ◌++◌, some, arith, length, take, drop, replicate,
  length-take_le, take-append_eq, length-append, length-drop,
}
use smartstring.Slice.{copy_from_slice-written}
use smartstring.Marker
use smartstring.Generic.{GenericString}
use smartstring.Inline.{InlineString, max_inline, size, deref, set_size, from_str, new}

-- The marker is an inline one, for a length that the array has room for.
pub record IsWf (s : InlineString) : Type 0 where
  pub fits : size s ≤ max_inline
  pub marked : s.marker ≡ Marker.new_inline (size s)
  pub full : length s.bytes ≡ max_inline

module _ (s : InlineString) (w : IsWf s) where
  pub length-deref : length (deref s) ≡ size s
  unfolding deref
  length-deref = length-take_le (size s) s.bytes (omega (arith, w.fits, w.full))

  pub wf_deref : deref s ≡ take (length (deref s)) s.bytes
  wf_deref = rw length-deref (unfold deref in refl)

  pub wf_length : length (deref s) ≤ length s.bytes
  wf_length = omega (arith, length-deref, w.fits, w.full)

  size-set_size : (n : ℕ) → n ≤ length s.bytes → size (set_size s n) ≡ n
  unfolding size set_size
  size-set_size n h =
      let e : n % 256 ≡ n = omega (arith, w.full) in
      rw e ((Marker.set_size_lem s.marker n (omega (arith, w.full))).0)

  pub set_size-IsWf : (n : ℕ) → n ≤ length s.bytes → IsWf (set_size s n)
  set_size-IsWf n h = record {
    fits = omega (arith, size-set_size n h, w.full);
    marked = rw (size-set_size n h) marked_as;
    full = unfold set_size in w.full;
  }
    where
      small : n % 256 ≡ n
      small = omega (arith, w.full)

      marked_as : (set_size s n).marker ≡ Marker.new_inline n
      marked_as =
          unfold set_size in
          rw (small, w.marked)
            (Marker.set_size-new_inline (size s) n (omega (arith, w.fits)) (omega (arith, w.full)))

  pub deref-set_size : (n : ℕ) → n ≤ length s.bytes → deref (set_size s n) ≡ take n s.bytes
  deref-set_size n h =
      unfold deref in
      ap (λ k. take k (set_size s n).bytes) (size-set_size n h) ∙ unfold set_size in refl

  pub with-IsWf : (b : List ℕ) → length b ≡ length s.bytes → IsWf (record s { bytes = b })
  unfolding size
  with-IsWf b e = record { fits = w.fits; marked = w.marked; full = e ∙ w.full }

  pub deref-with :
      (b : List ℕ)
      → length b ≡ length s.bytes
      → deref (record s { bytes = b }) ≡ take (length (deref s)) b
  deref-with b e = rw length-deref (unfold deref size in refl)

pub slice-set_size : (s : InlineString) (n : ℕ) → (set_size s n).bytes ≡ s.bytes
unfolding set_size
slice-set_size s n = refl

instance abbrev pub generic : GenericString InlineString
generic = record {
  deref = deref;
  set_size = set_size;
  capacity_slice = λ s. s.bytes;
  with_slice = λ s b. record s { bytes = b };
  address = λ s. 0;
  address-set_size = λ s n. refl;
  address-with = λ s b. refl;
  IsWf = IsWf;
  wf_length = wf_length;
  wf_deref = wf_deref;
  slice-set_size = slice-set_size;
  slice-with = λ s b. refl;
  set_size-IsWf = set_size-IsWf;
  deref-set_size = deref-set_size;
  with-IsWf = with-IsWf;
  deref-with = deref-with;
}

-- `s` is a well-formed inline string with the given text.
pub record Inlined (text : List ℕ) (s : InlineString) : Type 0 where
  pub wf : IsWf s
  pub text_eq : deref s ≡ text

filled : List ℕ → InlineString
filled text = record {
  marker = Marker.new_inline (length text % 256);
  bytes = text ++ drop (length text) (replicate max_inline 0);
}

-- A `str` that fits is copied to the front of the array.
filled-Inlined : (text : List ℕ) → length text ≤ max_inline → Inlined text (filled text)
filled-Inlined text h = record {
  wf = record {
    fits = omega (arith, sized);
    marked = rw sized (unfold filled in rw small refl);
    full =
        unfold filled in
        omega (
          arith,
          length-append text (drop (length text) (replicate max_inline 0)),
          length-drop (length text) (replicate {A = ℕ} max_inline 0),
        );
  };
  text_eq = unfold deref filled in take-append_eq (size (filled text)) text _ sized;
}
  where
    small : length text % 256 ≡ length text
    small = omega arith

    sized : size (filled text) ≡ length text
    sized = unfold size filled in rw small (Marker.size_of-new_inline (length text) (omega arith))

pub from_str-Inlined :
    (text : List ℕ)
    → length text ≤ max_inline
    → (s : InlineString) × (from_str text ≡ some s) × Inlined text s
unfolding filled from_str
from_str-Inlined text h = (
  filled text,
  rw (copy_from_slice-written 0 (length text) text (replicate max_inline 0) (omega arith) h),
  filled-Inlined text h,
)

new-filled : new ≡ filled []
unfolding new filled
new-filled = rw Marker.empty_lem

pub new-Inlined : Inlined [] new
new-Inlined = rw new-filled (filled-Inlined [] (omega arith))
