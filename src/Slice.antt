-- ===== src/Slice.antt =====
-- The slice methods of the standard library that ops.rs, inline.rs and boxed.rs call on a `[u8]`.
-- `none` is the panic of a range that does not fit.
use smartstring.Prelude.{
  drop-take, sym, ℕ, ◌+◌, ◌-◌, ◌≤◌, ◌≡◌, ◌∙◌, ◌&&◌, List, ◌++◌, Option, none, some, arith, leb,
  ◌==◌, ap, if◌then◌else◌, length, take, drop, length-append, length-take, length-drop,
  length-take_le, take-append_le, take-append_ge, take-append_eq, drop-append_eq, take-take,
}

-- `&buf[from..to]`, where `from <= to`.
abbrev pub range : ℕ → ℕ → List ℕ → List ℕ
range from to buf = take (to - from) (drop from buf)

-- The buffer after a range was copied to `dest`, and after a source was written at `from`.
abbrev pub moved : ℕ → ℕ → ℕ → List ℕ → List ℕ
moved from to dest buf = take dest buf ++ (range from to buf ++ drop (dest + (to - from)) buf)

abbrev pub written : ℕ → ℕ → List ℕ → List ℕ → List ℕ
written from to src buf = take from buf ++ (src ++ drop to buf)

-- `buf.copy_within(from..to, dest)`
pub copy_within : ℕ → ℕ → ℕ → List ℕ → Option (List ℕ)
copy_within from to dest buf =
    if leb from to && (leb to (length buf) && leb (dest + (to - from)) (length buf))
    then some (moved from to dest buf)
    else none

-- `buf[from..to].copy_from_slice(src)`
pub copy_from_slice : ℕ → ℕ → List ℕ → List ℕ → Option (List ℕ)
copy_from_slice from to src buf =
    if leb from to && (leb to (length buf) && (to - from == length src))
    then some (written from to src buf)
    else none

pub length-range :
    (from to : ℕ) (buf : List ℕ)
    → from ≤ to
    → to ≤ length buf
    → length (range from to buf) ≡ to - from
length-range from to buf h k =
    omega (arith, length-take (to - from) (drop from buf), length-drop from buf)

module _ (from to dest : ℕ) (buf : List ℕ) (h : from ≤ to) (k : to ≤ length buf)
    (l : dest + (to - from) ≤ length buf) where
  pub copy_within-moved : copy_within from to dest buf ≡ some (moved from to dest buf)
  unfolding copy_within
  copy_within-moved = ground arith

  pub length-moved : length (moved from to dest buf) ≡ length buf
  length-moved = omega (
    arith,
    length-append (take dest buf) (range from to buf ++ drop (dest + (to - from)) buf),
    length-append (range from to buf) (drop (dest + (to - from)) buf),
    length-range from to buf h k,
    length-drop (dest + (to - from)) buf,
    length-take_le dest buf (omega arith),
  )

  -- What stands before `dest` stays, and the range is found at `dest`.
  pub take-moved : (n : ℕ) → n ≤ dest → take n (moved from to dest buf) ≡ take n buf
  take-moved n i =
      take-append_le n (take dest buf) _ (omega (arith, length-take_le dest buf (omega arith)))
      ∙ take-take n dest buf i

  pub range-moved : take (to - from) (drop dest (moved from to dest buf)) ≡ range from to buf
  range-moved =
      ap (take (to - from)) (
        drop-append_eq dest (take dest buf) _
          (omega (arith, length-take_le dest buf (omega arith))))
      ∙ take-append_eq (to - from) (range from to buf) _
          (omega (arith, length-range from to buf h k))

  -- A move below `n` is a move in the first `n` bytes.
  pub take-moved_all :
      (n : ℕ)
      → to ≤ n
      → dest + (to - from) ≤ n
      → n ≤ length buf
      → take n (moved from to dest buf) ≡ moved from to dest (take n buf)
  take-moved_all n i j full =
      let k' = n - (dest + (to - from)) in
      take-append_ge n (to - from + k') (take dest buf)
        (range from to buf ++ drop (dest + (to - from)) buf)
        (omega (arith, length-take_le dest buf (omega arith)))
      ∙ ap (λ t. take dest buf ++ t)
          (take-append_ge (to - from + k') k' (range from to buf) (drop (dest + (to - from)) buf)
            (omega (arith, length-range from to buf h k)))
      ∙ ap (λ t. t ++ (range from to buf ++ take k' (drop (dest + (to - from)) buf)))
          (sym (take-take dest n buf (omega arith)))
      ∙ ap (λ t. take dest (take n buf) ++ (t ++ take k' (drop (dest + (to - from)) buf)))
          (sym (
            ap (take (to - from)) (drop-take from n buf)
            ∙ take-take (to - from) (n - from) (drop from buf) (omega arith)))
      ∙ ap (λ t. take dest (take n buf) ++ (range from to (take n buf) ++ t))
          (sym (drop-take (dest + (to - from)) n buf))

module _ (from to : ℕ) (src buf : List ℕ) (e : to ≡ from + length src) (k : to ≤ length buf) where
  pub copy_from_slice-written : copy_from_slice from to src buf ≡ some (written from to src buf)
  unfolding copy_from_slice
  copy_from_slice-written = ground arith

  pub length-written : length (written from to src buf) ≡ length buf
  length-written = omega (
    arith,
    length-append (take from buf) (src ++ drop to buf),
    length-append src (drop to buf),
    length-drop to buf,
    length-take_le from buf (omega arith),
  )

  -- What stands before `from`, the source, and what stands from `to` on.
  pub take-written :
      (n : ℕ)
      → take (to + n) (written from to src buf) ≡ take from buf ++ (src ++ take n (drop to buf))
  take-written n =
      take-append_ge (to + n) (length src + n) (take from buf) (src ++ drop to buf)
        (omega (arith, length-take_le from buf (omega arith)))
      ∙ ap (λ t. take from buf ++ t)
          (take-append_ge (length src + n) n src (drop to buf) (omega arith))
