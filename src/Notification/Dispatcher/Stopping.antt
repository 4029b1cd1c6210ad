-- ===== src/Notification/Dispatcher/Stopping.antt =====
-- What Stop of modules/notification/infrastructure/dispatcher/dispatcher.go guarantees.
use kopiochi.Prelude.{ℕ, ◌≡◌, ◌⊎◌, inl, inr, Bool, true, false, none, some, List, All, Text, arith}
use kopiochi.Notification.Dispatcher.Running.{
  Loop, not_called, draining, stopped, Dispatcher, IsReturned, OneOf, here, there, Tick, tick, Turn,
  leave, again, rest, Step, starts, ticks, turns, closes, stops_idle, stops, drained, times_out,
  Reach, fresh, later,
}

still_returned :
    {R : Loop → Loop → Type 0} {ls ms : List Loop}
    → ((l m : Loop) → R l m → IsReturned l → ⊥)
    → OneOf R ls ms
    → All IsReturned ls
    → ⊥
still_returned f (here {l} {m} r) h = f l m r h.0
still_returned f (there o) h = still_returned f o h.1

Tick-returned : (l m : Loop) → Tick l m → IsReturned l → ⊥
Tick-returned l m (tick k) h = h

Turn-returned : (c : Bool) (l m : Loop) → Turn c l m → IsReturned l → ⊥
Turn-returned c l m (leave k e) h = h
Turn-returned c l m (again e) h = h
Turn-returned c l m (rest k) h = h

-- What holds of a dispatcher at every time.
pub record IsSane (d : Dispatcher) : Type 0 where
  pub no_loops :
      d.started ≡ false
      → (d.claim_cancelled ≡ false) × (d.work_cancelled ≡ false) × (d.done ≡ false)
  pub over : d.done ≡ true → All IsReturned d.loops
  pub cancelled : d.stop ≡ draining → (d.started ≡ true) × (d.claim_cancelled ≡ true)
  pub not_yet : d.stop ≡ not_called → (d.claim_cancelled ≡ false) × (d.work_cancelled ≡ false)
  pub nil : d.stop ≡ stopped none → d.claim_cancelled ≡ true → d.done ≡ true
  pub aborted :
      d.work_cancelled ≡ true → (d.done ≡ true) ⊎ ((e : Text) × (d.stop ≡ stopped (some e)))

Step-IsSane :
    {workers : ℕ} {late : Text} {d e : Dispatcher} → Step workers late d e → IsSane d → IsSane e
Step-IsSane (starts n) s = ground arith
Step-IsSane (ticks o) s = record {
  no_loops = s.no_loops;
  over = λ h. absurd (still_returned Tick-returned o (s.over h));
  cancelled = s.cancelled;
  not_yet = s.not_yet;
  nil = s.nil;
  aborted = s.aborted;
}
Step-IsSane {d = d} (turns o) s = record {
  no_loops = s.no_loops;
  over = λ h. absurd (still_returned (Turn-returned d.claim_cancelled) o (s.over h));
  cancelled = s.cancelled;
  not_yet = s.not_yet;
  nil = s.nil;
  aborted = s.aborted;
}
Step-IsSane (closes y a n) s = ground arith
Step-IsSane (stops_idle n c) s = ground arith
Step-IsSane (stops y c) s = ground arith
Step-IsSane (drained x y) s = ground arith
Step-IsSane (times_out x) s = ground arith

pub Reach-IsSane : {workers : ℕ} {late : Text} {d : Dispatcher} → Reach workers late d → IsSane d
Reach-IsSane fresh = ground arith
Reach-IsSane (later r st) = Step-IsSane st (Reach-IsSane r)

-- If Stop has returned nil after it ended the claiming, every worker and the sweeper have returned. The
-- context of the work is cancelled only when they have, or when Stop has given up with its error.
pub stop_nil :
    {workers : ℕ} {late : Text} {d : Dispatcher}
    → Reach workers late d
    → d.claim_cancelled ≡ true
    → (d.stop ≡ stopped none) ⊎ (d.work_cancelled ≡ true)
    → All IsReturned d.loops ⊎ ((e : Text) × (d.stop ≡ stopped (some e)))
stop_nil r cancelled (inl nil) = let s = Reach-IsSane r in inl (s.over (s.nil nil cancelled))
stop_nil r cancelled (inr aborted) =
    let s = Reach-IsSane r in
    elim (s.aborted aborted) [ inl over ↦ inl (s.over over) | inr gave_up ↦ inr gave_up ]
