-- ===== src/Heap/Succeeds.antt =====
-- A call that ends well: it returns with a postcondition, or the allocator answered null to the
-- request at which it aborted.
use smartstring.Prelude.{◌≡◌, none}
use smartstring.Run.{Run, M, done, aborted, and_then, map_state}
use smartstring.Request.{Request, block_of, growth_of}
use smartstring.Heap.{Allocator}

-- The allocator answers null to the request.
abbrev pub Exhausted : Allocator → Request → Type 0
Exhausted a (block_of h l) = a.alloc h l ≡ none
Exhausted a (growth_of h p l n) = a.realloc h p l n ≡ none

-- No panic, no undefined behaviour and no endless loop is among the cases. `E` is what excuses
-- an abort, of the request at which the run ended.
pub data Ends (E : Request → Type 0) {σ A : Type 0} (P : A → σ → Type 0) : Run σ A → Type 0 where
  returns : {x : A} {s : σ} → P x s → Ends E P (done x s)
  gives_up : {q : Request} → E q → Ends E P (aborted q)

abbrev pub Succeeds : Allocator → {σ A : Type 0} → (A → σ → Type 0) → Run σ A → Type 0
Succeeds a P run = Ends (Exhausted a) P run

-- Nothing excuses an abort.
abbrev pub Returns : {σ A : Type 0} → (A → σ → Type 0) → Run σ A → Type 0
Returns P run = Ends (λ _. ⊥) P run

module _ {E : Request → Type 0} {σ A : Type 0} {P : A → σ → Type 0} where
  pub bind :
      {B : Type 0} {Q : B → σ → Type 0} {r : Run σ A} {k : A → M σ B}
      → Ends E P r
      → ((x : A) (s : σ) → P x s → Ends E Q (k x s))
      → Ends E Q (and_then r k)
  bind (returns p) next = next _ _ p
  bind (gives_up e) next = gives_up e

  pub mono :
      {Q : A → σ → Type 0} {r : Run σ A}
      → Ends E P r
      → ((x : A) (s : σ) → P x s → Q x s)
      → Ends E Q r
  mono (returns p) weaken = returns (weaken _ _ p)
  mono (gives_up e) weaken = gives_up e

-- A call that returns whatever the allocator does.
pub always :
    {E : Request → Type 0} {σ A : Type 0} {P : A → σ → Type 0} {r : Run σ A}
    → Returns P r
    → Ends E P r
always (returns p) = returns p
always (gives_up e) = absurd e

-- The call works on a part of the state.
pub bind_map :
    {E : Request → Type 0} {σ τ A B : Type 0} {P : A → σ → Type 0} {Q : B → τ → Type 0}
    {r : Run σ A} (f : σ → τ) (k : A → M τ B)
    → Ends E P r
    → ((x : A) (s : σ) → P x s → Ends E Q (k x (f s)))
    → Ends E Q (and_then (map_state f r) k)
bind_map f k (returns p) next = next _ _ p
bind_map f k (gives_up e) next = gives_up e

pub map_returns :
    {E : Request → Type 0} {σ τ A : Type 0} {P : A → σ → Type 0} {Q : A → τ → Type 0} {r : Run σ A}
    (f : σ → τ)
    → Ends E P r
    → ((x : A) (s : σ) → P x s → Q x (f s))
    → Ends E Q (map_state f r)
map_returns f (returns p) next = returns (next _ _ p)
map_returns f (gives_up e) next = gives_up e
