-- ===== src/Notification/Examples/RunningCases.antt =====
-- The theorems on the goroutines of the dispatcher and on its drain at concrete inputs.
use kopiochi.Prelude.{
  ℕ, suc, ◌+◌, ◌*◌, ◌-◌, ◌≤◌, ltb, ◌≡◌, refl, ◌⊎◌, inl, true, false, none, some, [], ◌∷◌, All, pos,
  Text, arith, if◌then◌else◌,
}
use kopiochi.Notification.Dispatcher.{Config, drain}
use kopiochi.Notification.Dispatcher.Draining.{cycles, ends, drain_lem}
use kopiochi.Notification.Dispatcher.Running.{
  worker, sweeper, waiting, busy, returned, loop, stopped, draining, Dispatcher, IsReturned, here,
  there, tick, leave, rest, starts, ticks, turns, closes, stops, drained, Reach, fresh, later,
}
use kopiochi.Notification.Dispatcher.Stopping.{stop_nil}
use kopiochi.Notification.Dispatcher.Returning.{halt, move, Drains, stop_returns}
use kopiochi.Notification.Examples.World.{World, world, ports}

-- One worker and the sweeper, the worker in a cycle, when Stop begins.
abbrev stopping : Dispatcher
stopping = record {
  started = true;
  claim_cancelled = true;
  work_cancelled = false;
  done = false;
  stop = draining;
  loops = loop worker busy ∷ loop sweeper waiting ∷ [];
}

stopping_reached : Reach 1 [] stopping
stopping_reached =
    later (later (later fresh (starts refl)) (ticks (here (tick worker)))) (stops refl refl)

-- The worker came back to its select.
abbrev rested : Dispatcher
rested = record stopping { loops = loop worker waiting ∷ loop sweeper waiting ∷ [] }

stop_returns_example : Drains 1 [] stopping × (1 ≤ 2 * 2 + 2)
stop_returns_example =
    stop_returns {n = 1} {e = rested} stopping_reached refl
      (move (turns (here (rest worker))) tt halt)

-- Both loops returned, and Stop returned nil.
abbrev over : Dispatcher
over = record {
  started = true;
  claim_cancelled = true;
  work_cancelled = true;
  done = true;
  stop = stopped none;
  loops = loop worker returned ∷ loop sweeper returned ∷ [];
}

over_reached : Reach 1 [] over
over_reached =
    later
      (later
        (later
          (later (later stopping_reached (turns (here (rest worker))))
            (turns (here (leave worker refl))))
          (turns (there (here (leave sweeper refl)))))
        (closes refl (tt, (tt, tt)) refl))
      (drained refl refl)

stop_nil_example : All IsReturned over.loops ⊎ ((e : Text) × (over.stop ≡ stopped (some e)))
stop_nil_example = stop_nil over_reached refl (inl refl)

-- Batches of two; the clock of the world stands for the number of due rows, and a cycle claims up to two of them.
abbrev by_two : Config
by_two = record {
  poll_interval = pos 1;
  workers = pos 1;
  batch_size = pos 2;
  stalled_after = pos 1;
  max_attempts = pos 5;
  backoff_base = pos 1;
  backoff_cap = pos 1;
  drain_timeout = pos 1;
}

abbrev world_at : ℕ → World
world_at n = record (world []) { clock = n }

abbrev claim_two : World → World × ℕ
claim_two w =
    if ltb w.clock 2
    then (record w { clock = 0 }, w.clock)
    else (record w { clock = w.clock - 2 }, 2)

claim_two_less : (w : World) → (claim_two w).0.clock + (claim_two w).1 ≤ w.clock
claim_two_less w = ground arith

drain_lem_example :
    (n : ℕ) × (drain ports by_two 6 claim_two (λ w. false) (world_at 5)
      ≡ some (cycles ports by_two claim_two (suc n) (world_at 5)))
    × (n ≤ 5)
    × (ends ports by_two (λ w. false) (claim_two (cycles ports by_two claim_two n (world_at 5)))
        ≡ true)
drain_lem_example =
    drain_lem ports by_two (λ w. w.clock) claim_two (λ w. false) 6 (world_at 5) claim_two_less
      (omega arith)
