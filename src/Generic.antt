-- ===== src/Generic.antt =====
-- The trait `GenericString` of ops.rs, and the steps that the string operations are made of.
use smartstring.Prelude.{
  ℕ, ◌≤◌, ◌≡◌, ◌∙◌, refl, sym, ap, List, Option, none, some, arith, length, take, take-take,
}
use smartstring.Run.{Run, M, done, panicked, ◌>>◌}

-- A mutable slice is read through `capacity_slice` and written through `with_slice`.
pub record GenericString (S : Type 0) : Type 1 where
  pub deref : S → List ℕ
  pub set_size : S → ℕ → S
  pub capacity_slice : S → List ℕ
  pub with_slice : S → List ℕ → S
  -- Where the buffer is. No operation of the trait moves it.
  pub address : S → ℕ
  pub address-set_size : (s : S) (n : ℕ) → address (set_size s n) ≡ address s
  pub address-with : (s : S) (b : List ℕ) → address (with_slice s b) ≡ address s
  -- The laws, on well-formed strings.
  pub IsWf : S → Type 0
  pub wf_length : (s : S) → IsWf s → length (deref s) ≤ length (capacity_slice s)
  pub wf_deref : (s : S) → IsWf s → deref s ≡ take (length (deref s)) (capacity_slice s)
  pub slice-set_size : (s : S) (n : ℕ) → capacity_slice (set_size s n) ≡ capacity_slice s
  pub slice-with : (s : S) (b : List ℕ) → capacity_slice (with_slice s b) ≡ b
  pub set_size-IsWf :
      (s : S) → IsWf s → (n : ℕ) → n ≤ length (capacity_slice s) → IsWf (set_size s n)
  pub deref-set_size :
      (s : S)
      → IsWf s
      → (n : ℕ) → n ≤ length (capacity_slice s)
      → deref (set_size s n) ≡ take n (capacity_slice s)
  pub with-IsWf :
      (s : S) → IsWf s → (b : List ℕ) → length b ≡ length (capacity_slice s) → IsWf (with_slice s b)
  pub deref-with :
      (s : S)
      → IsWf s
      → (b : List ℕ) → length b ≡ length (capacity_slice s)
      → deref (with_slice s b) ≡ take (length (deref s)) b

module _ {S : Type 0} ⦃g : GenericString S⦄ where
  -- `this.len()`, the length of the `str` that it derefs to
  abbrev pub len : S → ℕ
  len s = length (g.deref s)

  -- A slice method on `this.as_mut_capacity_slice()`.
  abbrev pub edit : (List ℕ → Option (List ℕ)) → M S (Unit {0})
  edit f s = elim (f (g.capacity_slice s)) [
    | none ↦ panicked s
    | some b ↦ done tt (g.with_slice s b)
  ]

  pub edit-some :
      (f : List ℕ → Option (List ℕ)) (s : S) {b : List ℕ}
      → f (g.capacity_slice s) ≡ some b
      → edit f s ≡ done tt (g.with_slice s b)
  edit-some f s e = rw (e, edit)

  abbrev pub resize : ℕ → M S (Unit {0})
  resize n s = done tt (g.set_size s n)

-- `s'` is well formed, holds `text`, and has room for as many bytes as `s`.
pub record Holds {S : Type 0} ⦃g : GenericString S⦄ (s : S) (text : List ℕ) (s' : S) : Type 0 where
  pub wf : g.IsWf s'
  pub text_eq : g.deref s' ≡ text
  pub room : length (g.capacity_slice s') ≡ length (g.capacity_slice s)
  pub place : g.address s' ≡ g.address s

module _ {S : Type 0} ⦃g : GenericString S⦄ (s : S) (w : g.IsWf s) where
  -- A new buffer of the same length, and then a new size.
  pub Holds-store :
      (b : List ℕ) (n : ℕ)
      → length b ≡ length (g.capacity_slice s)
      → n ≤ length b
      → Holds s (take n b) (g.set_size (g.with_slice s b) n)
  Holds-store b n e h =
      let w' = g.with-IsWf s w b e in
      let e' = g.slice-with s b in
      let fits : n ≤ length (g.capacity_slice (g.with_slice s b)) = rw e' h in
      record {
        wf = g.set_size-IsWf (g.with_slice s b) w' n fits;
        text_eq = g.deref-set_size (g.with_slice s b) w' n fits ∙ ap (take n) e';
        room = ap length (g.slice-set_size (g.with_slice s b) n ∙ e') ∙ e;
        place = g.address-set_size (g.with_slice s b) n ∙ g.address-with s b;
      }

  -- A smaller size cuts the text.
  pub Holds-cut : (n : ℕ) → n ≤ len s → Holds s (take n (g.deref s)) (g.set_size s n)
  Holds-cut n h = record {
    wf = g.set_size-IsWf s w n (omega (arith, g.wf_length s w));
    text_eq =
        g.deref-set_size s w n (omega (arith, g.wf_length s w))
        ∙ sym (take-take n (len s) (g.capacity_slice s) h)
        ∙ ap (take n) (sym (g.wf_deref s w));
    room = ap length (g.slice-set_size s n);
    place = g.address-set_size s n;
  }

  pub Holds-self : Holds s (g.deref s) s
  Holds-self = record { wf = w; text_eq = refl; room = refl; place = refl }

pub Holds-text :
    {S : Type 0} ⦃g : GenericString S⦄ {s s' : S} {t u : List ℕ}
    → t ≡ u
    → Holds s t s'
    → Holds s u s'
Holds-text e h = record { wf = h.wf; text_eq = h.text_eq ∙ e; room = h.room; place = h.place }

-- Only the bytes of the buffer are changed.
module _ {S : Type 0} ⦃g : GenericString S⦄ (s : S) (w : g.IsWf s) where
  pub Holds-write :
      (b : List ℕ)
      → length b ≡ length (g.capacity_slice s)
      → Holds s (take (len s) b) (g.with_slice s b)
  Holds-write b e = record {
    wf = g.with-IsWf s w b e;
    text_eq = g.deref-with s w b e;
    room = ap length (g.slice-with s b) ∙ e;
    place = g.address-with s b;
  }

pub Holds-trans :
    {S : Type 0} ⦃g : GenericString S⦄ {s s' s'' : S} {t u : List ℕ}
    → Holds s t s'
    → Holds s' u s''
    → Holds s u s''
Holds-trans h k = record {
  wf = k.wf;
  text_eq = k.text_eq;
  room = k.room ∙ h.room;
  place = k.place ∙ h.place;
}

-- The call returns `x` and leaves the text `text`.
abbrev pub Leaves : {S A : Type 0} ⦃g : GenericString S⦄ → S → List ℕ → A → Run S A → Type 0
Leaves {S} s text x r = (s' : S) × (r ≡ done x s') × Holds s text s'

-- One or two edits that keep the buffer's length, and a new size.
module _ {S : Type 0} ⦃g : GenericString S⦄ (s : S) (w : g.IsWf s) {text : List ℕ} where
  pub store_once :
      (f : List ℕ → Option (List ℕ)) (b : List ℕ) (n : ℕ)
      → f (g.capacity_slice s) ≡ some b
      → length b ≡ length (g.capacity_slice s)
      → n ≤ length b
      → take n b ≡ text
      → Leaves s text tt ((edit f >> resize n) s)
  store_once f b n e full h t = (
    g.set_size (g.with_slice s b) n,
    rw (edit-some f s e),
    Holds-text t (Holds-store s w b n full h),
  )

  pub store_twice :
      (f f' : List ℕ → Option (List ℕ)) (b b' : List ℕ) (n : ℕ)
      → f (g.capacity_slice s) ≡ some b
      → f' b ≡ some b'
      → length b ≡ length (g.capacity_slice s)
      → length b' ≡ length b
      → n ≤ length b'
      → take n b' ≡ text
      → Leaves s text tt ((edit f >> (edit f' >> resize n)) s)
  store_twice f f' b b' n e e' full full' h t =
      let s1 = g.with_slice s b in
      let same : g.capacity_slice s1 ≡ b = g.slice-with s b in
      let second : f' (g.capacity_slice s1) ≡ some b' = rw same e' in
      let held = Holds-store s1 (g.with-IsWf s w b full) b' n (rw same full') h in
      (
        g.set_size (g.with_slice s1 b') n,
        rw (edit-some f s e, edit-some f' s1 second),
        record {
          wf = held.wf;
          text_eq = held.text_eq ∙ t;
          room = held.room ∙ ap length same ∙ full;
          place = held.place ∙ g.address-with s b;
        },
      )
