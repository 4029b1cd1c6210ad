-- ===== src/Notification/Dispatcher/Returning.antt =====
-- That Stop of modules/notification/infrastructure/dispatcher/dispatcher.go returns: the steps that remain
-- once it has begun.
use kopiochi.Prelude.{
  ℕ, zero, suc, ◌+◌, ◌*◌, length, ◌≤◌, ◌≡◌, refl, ◌⊎◌, inl, inr, Bool, Bool-cases, true, false,
  none, List, [], ◌∷◌, All, Text, arith,
}
use kopiochi.Notification.Dispatcher.Running.{
  waiting, busy, returned, Loop, loop, StopPhase, draining, stopped, Dispatcher, IsReturned, OneOf,
  here, there, Turn, leave, again, rest, Step, starts, ticks, turns, closes, stops_idle, stops,
  drained, times_out, Reach,
}
use kopiochi.Notification.Dispatcher.Stopping.{Reach-IsSane}

-- The steps that come by themselves once Stop has begun: no tick, and no second Start or Stop.
abbrev pub IsQuiet : {workers : ℕ} {late : Text} {d e : Dispatcher} → Step workers late d e → Type 0
IsQuiet (turns o) = Unit
IsQuiet (closes y a n) = Unit
IsQuiet (drained x y) = Unit
IsQuiet (times_out x) = Unit
IsQuiet _ = ⊥

-- So many quiet steps lead from one state to another.
pub data Run (workers : ℕ) (late : Text) : ℕ → Dispatcher → Dispatcher → Type 0 where
  halt : {d : Dispatcher} → Run workers late 0 d d
  move :
      {n : ℕ} {d e f : Dispatcher} (st : Step workers late d e)
      → IsQuiet st
      → Run workers late n e f
      → Run workers late (suc n) d f

abbrev weight : Loop → ℕ
weight (loop k waiting) = 1
weight (loop k busy) = 2
weight (loop k returned) = 0

abbrev total : List Loop → ℕ
total [] = 0
total (l ∷ ls) = weight l + total ls

abbrev open_channel : Bool → ℕ
open_channel true = 0
open_channel false = 1

abbrev still_waits : StopPhase → ℕ
still_waits draining = 1
still_waits _ = 0

abbrev potential : Dispatcher → ℕ
potential d = total d.loops + (open_channel d.done + still_waits d.stop)

Turn-total : (l m : Loop) → Turn true l m → weight l ≡ suc (weight m)
Turn-total l m (leave k e) = refl
Turn-total l m (again e) = cc
Turn-total l m (rest k) = refl

OneOf-total : {ls ms : List Loop} → OneOf (Turn true) ls ms → total ls ≡ suc (total ms)
OneOf-total (here {l} {m} r) = omega (arith, Turn-total l m r)
OneOf-total (there o) = omega (arith, OneOf-total o)

-- Stop has ended the claiming of a dispatcher that was started.
abbrev IsEnding : Dispatcher → Type 0
IsEnding d = (d.started ≡ true) × (d.claim_cancelled ≡ true)

quiet-Step :
    {workers : ℕ} {late : Text} {d e : Dispatcher} (st : Step workers late d e)
    → IsQuiet st
    → IsEnding d
    → IsEnding e × (suc (potential e) ≤ potential d)
quiet-Step {d = d} (turns {ls} o) q h =
    let turned : OneOf (Turn true) d.loops ls = rw (← h.1) o in
    (h, omega (arith, OneOf-total turned))
quiet-Step (closes y a n) q h = (h, rw n (ground arith))
quiet-Step (drained x y) q h = (h, rw x (ground arith))
quiet-Step (times_out x) q h = (h, rw x (ground arith))
quiet-Step (starts n) q h = elim q [ ]
quiet-Step (ticks o) q h = elim q [ ]
quiet-Step (stops_idle n c) q h = elim q [ ]
quiet-Step (stops y c) q h = elim q [ ]

quiet_run :
    {workers : ℕ} {late : Text} {n : ℕ} {d e : Dispatcher}
    → Run workers late n d e
    → IsEnding d
    → n + potential e ≤ potential d
quiet_run halt h = omega arith
quiet_run (move st q r) h = let (h', less) = quiet-Step st q h in omega (arith, quiet_run r h')

total-le : (ls : List Loop) → total ls ≤ 2 * length ls
total-le [] = omega arith
total-le (loop k waiting ∷ ls) = omega (arith, total-le ls)
total-le (loop k busy ∷ ls) = omega (arith, total-le ls)
total-le (loop k returned ∷ ls) = omega (arith, total-le ls)

-- While a loop has not returned, one can move.
can-Turn : (ls : List Loop) → All IsReturned ls ⊎ ((ms : List Loop) × OneOf (Turn true) ls ms)
can-Turn [] = inl tt
can-Turn (loop k waiting ∷ ls) = inr (loop k returned ∷ ls, here (leave k refl))
can-Turn (loop k busy ∷ ls) = inr (loop k waiting ∷ ls, here (rest k))
can-Turn (loop k returned ∷ ls) = elim (can-Turn ls) [
  | inl all ↦ inl (tt, all)
  | inr (ms, o) ↦ inr (loop k returned ∷ ms, there o)
]

-- A run of quiet steps after which Stop has returned nil and every loop has returned.
pub record Drains (workers : ℕ) (late : Text) (d : Dispatcher) : Type 0 where
  pub last : Dispatcher
  pub steps : ℕ
  pub run : Run workers late steps d last
  pub nil : last.stop ≡ stopped none
  pub over : All IsReturned last.loops

prefixed :
    {workers : ℕ} {late : Text} {d e : Dispatcher} (st : Step workers late d e)
    → IsQuiet st
    → Drains workers late e
    → Drains workers late d
prefixed st q r = record {
  last = r.last;
  steps = suc r.steps;
  run = move st q r.run;
  nil = r.nil;
  over = r.over;
}

Drains-closed :
    (workers : ℕ) (late : Text) (d : Dispatcher)
    → d.stop ≡ draining
    → d.done ≡ true
    → All IsReturned d.loops
    → Drains workers late d
Drains-closed workers late d waits over all = record {
  last = record d { stop = stopped none; work_cancelled = true };
  steps = 1;
  run = move (drained waits over) tt halt;
  nil = refl;
  over = all;
}

Drains-over :
    {workers : ℕ} {late : Text} (d : Dispatcher)
    → IsEnding d
    → d.stop ≡ draining
    → d.done ≡ false
    → All IsReturned d.loops
    → Drains workers late d
Drains-over {workers} {late} d h waits unclosed all =
    prefixed (closes h.0 all unclosed) tt
      (Drains-closed workers late (record d { done = true }) waits refl all)

turned : (c : Bool) {ls ms : List Loop} → c ≡ true → OneOf (Turn true) ls ms → OneOf (Turn c) ls ms
turned c e o = rw e o

Drains-open :
    {workers : ℕ} {late : Text} (n : ℕ) (d : Dispatcher)
    → total d.loops ≤ n
    → IsEnding d
    → d.stop ≡ draining
    → d.done ≡ false
    → Drains workers late d
Drains-open zero d le h waits unclosed = elim (can-Turn d.loops) [
  | inl all ↦ Drains-over d h waits unclosed all
  | inr (ms, o) ↦ absurd (omega (arith, OneOf-total o))
]
Drains-open (suc n) d le h waits unclosed = elim (can-Turn d.loops) [
  | inl all ↦ Drains-over d h waits unclosed all
  | inr (ms, o) ↦
      prefixed (turns (turned d.claim_cancelled h.1 o)) tt
        (Drains-open n (record d { loops = ms }) (omega (arith, OneOf-total o)) h waits unclosed)
]

quiet_bound : (d : Dispatcher) → potential d ≤ 2 * length d.loops + 2
quiet_bound d = ground (arith, total-le d.loops)

-- While Stop waits: it can always still return nil with every loop returned, without another tick; and
-- a run without a tick has at most two steps for each loop and two more, whatever else happens.
pub stop_returns :
    {workers : ℕ} {late : Text} {n : ℕ} {d e : Dispatcher}
    → Reach workers late d
    → d.stop ≡ draining
    → Run workers late n d e
    → Drains workers late d × (n ≤ 2 * length d.loops + 2)
stop_returns {d = d} r waits run =
    let s = Reach-IsSane r in
    let ending = s.cancelled waits in
    (
      elim (Bool-cases d.done) [
        | inl over ↦ Drains-closed _ _ d waits over (s.over over)
        | inr unclosed ↦ Drains-open (total d.loops) d (omega arith) ending waits unclosed
      ],
      omega (arith, quiet_run run ending, quiet_bound d),
    )
