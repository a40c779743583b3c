-- ===== src/Run.antt =====
-- How a Rust call ends, and the state monad of a call that has `&mut` access to a state.
use smartstring.Request.{Request}
use smartstring.Prelude.{◌≡◌, Bool, true, false, Option, none, some}

-- A panic unwinds and leaves the state as it then was. The other three outcomes end the run: the
-- allocator answered null to a request, the call's behaviour is undefined, or a loop did not end on
-- its fuel.
pub data Run (σ A : Type 0) : Type 0 where
  done : A → σ → Run σ A
  panicked : σ → Run σ A
  aborted : Request → Run σ A
  undefined : Run σ A
  diverged : Run σ A

abbrev pub M : Type 0 → Type 0 → Type 0
M σ A = σ → Run σ A

module _ {σ A : Type 0} where
  abbrev pub pure : A → M σ A
  pure a s = done a s

  abbrev pub panic : M σ A
  panic s = panicked s

  abbrev pub gets : (σ → A) → M σ A
  gets f s = done (f s) s

  -- `.unwrap()`, and a slice operation that checks its ranges.
  abbrev pub unwrap : Option A → M σ A
  unwrap none s = panicked s
  unwrap (some a) s = done a s

abbrev modify : {σ : Type 0} → (σ → σ) → M σ (Unit {0})
modify f s = done tt (f s)

abbrev pub assert : {σ : Type 0} → Bool → M σ (Unit {0})
assert true s = done tt s
assert false s = panicked s

abbrev pub and_then : {σ A B : Type 0} → Run σ A → (A → M σ B) → Run σ B
and_then (done a s) f = f a s
and_then (panicked s) f = panicked s
and_then (aborted q) f = aborted q
and_then undefined f = undefined
and_then diverged f = diverged

abbrev pub map_state : {σ τ A : Type 0} → (σ → τ) → Run σ A → Run τ A
map_state f (done a s) = done a (f s)
map_state f (panicked s) = panicked (f s)
map_state f (aborted q) = aborted q
map_state f undefined = undefined
map_state f diverged = diverged

infixl 5 ◌>>=◌ ◌>>◌
abbrev pub ◌>>=◌ : {σ A B : Type 0} → M σ A → (A → M σ B) → M σ B
◌>>=◌ m f s = and_then (m s) f

abbrev pub ◌>>◌ : {σ B : Type 0} → M σ (Unit {0}) → M σ B → M σ B
m >> k = m >>= λ _. k

-- A call that works on the first of two states.
abbrev pub on_first : {σ τ A : Type 0} → M σ A → M (σ × τ) A
on_first m p = map_state (λ s. (s, p.1)) (m p.0)

-- A call that works on the second, such as the allocator's on the heap.
abbrev pub on_second : {σ τ A : Type 0} → M τ A → M (σ × τ) A
on_second m p = map_state (λ t. (p.0, t)) (m p.1)

module _ {σ τ A : Type 0} (m : M σ A) (s : σ) (t : τ) where
  pub on_first-done : {x : A} {s' : σ} → m s ≡ done x s' → on_first m (s, t) ≡ done x (s', t)
  on_first-done e = rw (e, on_first)

  pub on_first-panicked : {s' : σ} → m s ≡ panicked s' → on_first m (s, t) ≡ panicked (s', t)
  on_first-panicked e = rw (e, on_first)
