-- ===== src/Boxed/Wf.antt =====
-- The invariant of a boxed string, and its operations as an instance of `GenericString`.
use smartstring.Prelude.{
  ℕ, ◌%◌, ◌^◌, ◌≤◌, ◌<◌, ◌≡◌, ◌∙◌, refl, List, arith, length, take, length-take_le, isize_max,
}
use smartstring.Generic.{GenericString}
use smartstring.Boxed.{BoxedString, deref, set_size}

-- The buffer is as long as the capacity says, and the address is even: the `debug_assert!`s of
-- `alloc`, `realloc` and `set_size`. A capacity has a layout that `layout_for` does not refuse.
pub record IsWf (b : BoxedString) : Type 0 where
  pub fits : b.len ≤ b.cap
  pub full : length b.buffer ≡ b.cap
  pub cap_pos : 0 < b.cap
  pub cap_lt : b.cap < isize_max
  pub nonnull : 0 < b.ptr
  pub even : b.ptr % 2 ≡ 0
  pub in_range : b.ptr < 2 ^ 64

module _ (b : BoxedString) (w : IsWf b) where
  pub length-deref : length (deref b) ≡ b.len
  unfolding deref
  length-deref = length-take_le b.len b.buffer (omega (arith, w.fits, w.full))

  pub wf_deref : deref b ≡ take (length (deref b)) b.buffer
  wf_deref = rw length-deref (unfold deref in refl)

  pub wf_length : length (deref b) ≤ length b.buffer
  wf_length = omega (arith, length-deref, w.fits, w.full)

  pub set_size-IsWf : (n : ℕ) → n ≤ length b.buffer → IsWf (set_size b n)
  unfolding set_size
  set_size-IsWf n h = record {
    fits = omega (arith, w.full);
    full = w.full;
    cap_pos = w.cap_pos;
    cap_lt = w.cap_lt;
    nonnull = w.nonnull;
    even = w.even;
    in_range = w.in_range;
  }

  pub deref-set_size : (n : ℕ) → n ≤ length b.buffer → deref (set_size b n) ≡ take n b.buffer
  unfolding deref set_size
  deref-set_size n h = refl

  pub with-IsWf : (c : List ℕ) → length c ≡ length b.buffer → IsWf (record b { buffer = c })
  with-IsWf c e = record {
    fits = w.fits;
    full = e ∙ w.full;
    cap_pos = w.cap_pos;
    cap_lt = w.cap_lt;
    nonnull = w.nonnull;
    even = w.even;
    in_range = w.in_range;
  }

  pub deref-with :
      (c : List ℕ)
      → length c ≡ length b.buffer
      → deref (record b { buffer = c }) ≡ take (length (deref b)) c
  deref-with c e = rw length-deref (unfold deref in refl)

pub slice-set_size : (b : BoxedString) (n : ℕ) → (set_size b n).buffer ≡ b.buffer
unfolding set_size
slice-set_size b n = refl

pub address-set_size : (b : BoxedString) (n : ℕ) → (set_size b n).ptr ≡ b.ptr
unfolding set_size
address-set_size b n = refl

instance abbrev pub generic : GenericString BoxedString
generic = record {
  deref = deref;
  set_size = set_size;
  capacity_slice = λ b. b.buffer;
  with_slice = λ b c. record b { buffer = c };
  address = λ b. b.ptr;
  address-set_size = address-set_size;
  address-with = λ b c. refl;
  IsWf = IsWf;
  wf_length = wf_length;
  wf_deref = wf_deref;
  slice-set_size = slice-set_size;
  slice-with = λ b c. refl;
  set_size-IsWf = set_size-IsWf;
  deref-set_size = deref-set_size;
  with-IsWf = with-IsWf;
  deref-with = deref-with;
}
