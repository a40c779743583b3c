-- ===== src/Heap/Settles.antt =====
-- How a call of any size may end: it returns, refuses with its state as it was, or does not end.
use smartstring.Run.{Run, M, done, panicked, aborted, diverged, and_then, map_state}
use smartstring.Request.{Request}
use smartstring.Heap.{Allocator}
use smartstring.Heap.Succeeds.{Succeeds, Exhausted}
use smartstring.Heap.Succeeds as Succeeds

-- The call began with the state `start`.
pub data Settles (a : Allocator) {σ A : Type 0} (start : σ) (P : A → σ → Type 0)
    : Run σ A → Type 0 where
  returns : {x : A} {s : σ} → P x s → Settles a start P (done x s)
  refuses : Settles a start P (panicked start)
  gives_up : {q : Request} → Exhausted a q → Settles a start P (aborted q)
  hangs : Settles a start P diverged

pub settled :
    (a : Allocator) {σ A : Type 0} {start : σ} {P : A → σ → Type 0} {r : Run σ A}
    → Succeeds a P r
    → Settles a start P r
settled a (Succeeds.returns p) = returns p
settled a (Succeeds.gives_up e) = gives_up e

module _ (a : Allocator) {σ A : Type 0} {start : σ} {P : A → σ → Type 0} where
  -- The first part of a call may refuse, the rest succeeds.
  pub bind_map :
      {τ B : Type 0} {Q : B → τ → Type 0} {r : Run σ A} (f : σ → τ) (k : A → M τ B)
      → Settles a start P r
      → ((x : A) (s : σ) → P x s → Succeeds a Q (k x (f s)))
      → Settles a (f start) Q (and_then (map_state f r) k)
  bind_map f k (returns p) next = settled a (next _ _ p)
  bind_map f k refuses next = refuses
  bind_map f k (gives_up e) next = gives_up e
  bind_map f k hangs next = hangs

  pub mono :
      {Q : A → σ → Type 0} {r : Run σ A}
      → Settles a start P r
      → ((x : A) (s : σ) → P x s → Q x s)
      → Settles a start Q r
  mono (returns p) weaken = returns (weaken _ _ p)
  mono refuses weaken = refuses
  mono (gives_up e) weaken = gives_up e
  mono hangs weaken = hangs
