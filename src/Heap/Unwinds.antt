-- ===== src/Heap/Unwinds.antt =====
-- A call that panics, with a state that is described, unless the allocator answered null to a
-- request of the run.
use smartstring.Run.{Run, M, panicked, aborted, and_then}
use smartstring.Request.{Request}
use smartstring.Heap.{Allocator}
use smartstring.Heap.Succeeds.{Succeeds, Exhausted}
use smartstring.Heap.Succeeds as Succeeds

pub data Unwinds (a : Allocator) {σ A : Type 0} (P : σ → Type 0) : Run σ A → Type 0 where
  unwinds : {s : σ} → P s → Unwinds a P (panicked s)
  gives_up : {q : Request} → Exhausted a q → Unwinds a P (aborted q)

-- The first part of the call returns.
pub bind :
    (a : Allocator) {σ A B : Type 0} {P : A → σ → Type 0} {Q : σ → Type 0} {r : Run σ A}
    {k : A → M σ B}
    → Succeeds a P r
    → ((x : A) (s : σ) → P x s → Unwinds a Q (k x s))
    → Unwinds a Q (and_then r k)
bind a (Succeeds.returns p) next = next _ _ p
bind a (Succeeds.gives_up e) next = gives_up e
