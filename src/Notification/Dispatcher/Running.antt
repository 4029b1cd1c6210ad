-- ===== src/Notification/Dispatcher/Running.antt =====
-- Start, Stop, runWorker and runSweeper of
-- modules/notification/infrastructure/dispatcher/dispatcher.go as a step relation: each step is what
-- one goroutine does up to its next wait. A select whose two cases are ready takes either.
use kopiochi.Prelude.{
  ℕ, zero, suc, ◌≡◌, Bool, true, false, Option, none, some, List, [], ◌∷◌, All, Text,
}

pub data Kind : Type 0 where
  worker sweeper : Kind

-- Where a loop stands: at its select, in DispatchBatch or Sweep, or behind its return.
pub data Phase : Type 0 where
  waiting busy returned : Phase

pub data Loop : Type 0 where
  loop : Kind → Phase → Loop

-- Where Stop stands. The error is that of a drain that did not finish in time.
pub data StopPhase : Type 0 where
  not_called draining : StopPhase
  stopped : Option Text → StopPhase

-- Dispatcher, while it runs: the goroutines, the two contexts, and whether `done` is closed.
pub record Dispatcher : Type 0 where
  pub started : Bool
  pub claim_cancelled : Bool
  pub work_cancelled : Bool
  pub done : Bool
  pub stop : StopPhase
  pub loops : List Loop

-- What New returns.
abbrev pub idle : Dispatcher
idle = record {
  started = false;
  claim_cancelled = false;
  work_cancelled = false;
  done = false;
  stop = not_called;
  loops = [];
}

-- The goroutines of Start: the workers and one sweeper.
abbrev pub fleet : ℕ → List Loop
fleet zero = loop sweeper waiting ∷ []
fleet (suc n) = loop worker waiting ∷ fleet n

abbrev pub IsReturned : Loop → Type 0
IsReturned (loop k returned) = Unit
IsReturned (loop k _) = ⊥

-- One loop of the list moves.
pub data OneOf (R : Loop → Loop → Type 0) : List Loop → List Loop → Type 0 where
  here : {l m : Loop} {ls : List Loop} → R l m → OneOf R (l ∷ ls) (m ∷ ls)
  there : {l : Loop} {ls ms : List Loop} → OneOf R ls ms → OneOf R (l ∷ ls) (l ∷ ms)

-- The ticker's case of the select, also after `claim` is cancelled.
pub data Tick : Loop → Loop → Type 0 where
  tick : (k : Kind) → Tick (loop k waiting) (loop k busy)

-- The other moves, by whether `claim` is cancelled: the return of the select's first case, one more
-- cycle of drain, and the way back to the select.
pub data Turn (cancelled : Bool) : Loop → Loop → Type 0 where
  leave : (k : Kind) → cancelled ≡ true → Turn cancelled (loop k waiting) (loop k returned)
  again : cancelled ≡ false → Turn cancelled (loop worker busy) (loop worker busy)
  rest : (k : Kind) → Turn cancelled (loop k busy) (loop k waiting)

-- `workers` is cfg.Workers and `late` the error of a drain that timed out.
pub data Step (workers : ℕ) (late : Text) (d : Dispatcher) : Dispatcher → Type 0 where
  starts :
      d.started ≡ false → Step workers late d (record d { started = true; loops = fleet workers })
  ticks : {ls : List Loop} → OneOf Tick d.loops ls → Step workers late d (record d { loops = ls })
  turns :
      {ls : List Loop}
      → OneOf (Turn d.claim_cancelled) d.loops ls
      → Step workers late d (record d { loops = ls })
  closes :
      d.started ≡ true
      → All IsReturned d.loops
      → d.done ≡ false
      → Step workers late d (record d { done = true })
  stops_idle :
      d.started ≡ false
      → d.stop ≡ not_called
      → Step workers late d (record d { stop = stopped none })
  stops :
      d.started ≡ true
      → d.stop ≡ not_called
      → Step workers late d (record d { claim_cancelled = true; stop = draining })
  drained :
      d.stop ≡ draining
      → d.done ≡ true
      → Step workers late d (record d { stop = stopped none; work_cancelled = true })
  times_out :
      d.stop ≡ draining
      → Step workers late d (record d { stop = stopped (some late); work_cancelled = true })

-- What New's dispatcher can come to.
pub data Reach (workers : ℕ) (late : Text) : Dispatcher → Type 0 where
  fresh : Reach workers late idle
  later : {d e : Dispatcher} → Reach workers late d → Step workers late d e → Reach workers late e
