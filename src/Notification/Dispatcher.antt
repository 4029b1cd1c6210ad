-- ===== src/Notification/Dispatcher.antt =====
-- modules/notification/infrastructure/dispatcher/dispatcher.go: the worker's settings, the drain
-- and the sweep of stalled rows. Start, Stop and the goroutines are in Running.
pub mod Sweeping
pub mod Draining
pub mod Running
pub mod Stopping
pub mod Returning
use kopiochi.Prelude.{
  ℕ, zero, suc, ℤ, pos, ◌-ℤ◌, Bool, true, false, not, ◌&&◌, ◌||◌, Option, none, some, List, [], ◌∷◌,
  ◌++◌, Text, ltb_ℤ, leb_ℤ, if◌then◌else◌, ◌==◌,
}
use kopiochi.Notification.Domain.Types.{
  Uuid, Time, Duration, DomainError, Notification, Result, ok, err,
}
use kopiochi.Notification.Domain.Outcome.{recover_stalled}
use kopiochi.Notification.Domain.Backoff.{Floats, backoff, backoff_with_jitter}
use kopiochi.Notification.Application.Ports.{Outcome, returns, panics, Fault, Ports}
use kopiochi.Notification.Application.Dispatch.{CycleError}

-- Config
pub record Config : Type 0 where
  pub poll_interval : Duration
  pub workers : ℤ
  pub batch_size : ℤ
  pub stalled_after : Duration
  pub max_attempts : ℤ
  pub backoff_base : Duration
  pub backoff_cap : Duration
  pub drain_timeout : Duration

-- Which of the collaborators are set: a nil one is refused.
pub record Deps : Type 0 where
  pub has_batcher : Bool
  pub has_notifications : Bool
  pub has_clock : Bool

pub data SetupError : Type 0 where
  no_batcher no_repository no_clock bad_poll_interval bad_workers bad_batch_size : SetupError
  bad_stalled_after bad_max_attempts bad_backoff bad_drain_timeout : SetupError

-- `if bad { errs = append(errs, e) }`
abbrev pub report : Bool → SetupError → List SetupError
report true e = e ∷ []
report false e = []

-- `v <= 0`
abbrev pub not_positive : ℤ → Bool
not_positive v = leb_ℤ v (pos 0)

-- The checks of New, all of which are made: it refuses if the list is not empty.
unfoldable pub setup_errors : Deps → Config → List SetupError
setup_errors deps cfg =
    report (not deps.has_batcher) no_batcher
    ++ (report (not deps.has_notifications) no_repository
        ++ (report (not deps.has_clock) no_clock
            ++ (report (not_positive cfg.poll_interval) bad_poll_interval
                ++ (report (not_positive cfg.workers) bad_workers
                    ++ (report (not_positive cfg.batch_size) bad_batch_size
                        ++ (report (not_positive cfg.stalled_after) bad_stalled_after
                            ++ (report (not_positive cfg.max_attempts) bad_max_attempts
                                ++ (report
                                      (not_positive cfg.backoff_base
                                        || not_positive cfg.backoff_cap)
                                      bad_backoff
                                    ++ report (not_positive cfg.drain_timeout)
                                        bad_drain_timeout))))))))

pub data SweepError : Type 0 where
  claim_failed : Fault → SweepError
  nil_stalled : SweepError
  not_recovered : Uuid → DomainError → SweepError
  not_saved : Uuid → Fault → SweepError

module _ {W : Type 0} {fl : Floats} (ports : Ports W fl) (cfg : Config) where
  abbrev pub draw : Option (W → W × Floats.Float fl) → W → W × Option (Floats.Float fl)
  draw none w = (w, none)
  draw (some source) w = let (w', f) = source w in (w', some f)

  abbrev pub after_save :
      Uuid → W × Outcome (Result (Unit {0}) Fault) → W × Outcome (Option SweepError)
  after_save id (w, panics v) = (w, panics v)
  after_save id (w, returns (err f)) = (w, returns (some (not_saved id f)))
  after_save id (w, returns (ok done)) = (w, returns none)

  abbrev pub after_recovery :
      W → Notification × Option DomainError → W × Outcome (Option SweepError)
  after_recovery w (n, some e) = (w, returns (some (not_recovered n.id e)))
  after_recovery w (n, none) = after_save n.id (ports.save w n)

  -- One turn of the loop of Sweep, for a row that is not nil.
  unfoldable pub recover_one : W → Notification → Time → W × Outcome (Option SweepError)
  recover_one w n now =
      let d = backoff n.attempts cfg.backoff_base cfg.backoff_cap in
      let (w', f) = if leb_ℤ d (pos 0) then (w, none) else draw ports.jitter w in
      let retry_after = backoff_with_jitter fl n.attempts cfg.backoff_base cfg.backoff_cap f in
      after_recovery w' (recover_stalled n now retry_after cfg.max_attempts)

  abbrev pub tally :
      Option SweepError → Outcome (ℕ × List SweepError) → Outcome (ℕ × List SweepError)
  tally e (panics v) = panics v
  tally none (returns (k, es)) = returns (suc k, es)
  tally (some e) (returns (k, es)) = returns (k, e ∷ es)

  -- The loop of Sweep. Nothing recovers a panic here.
  unfoldable pub recover_all :
      W → List (Option Notification) → Time → W × Outcome (ℕ × List SweepError)
  unfolding recover_one
  recover_all w [] now = (w, returns (0, []))
  recover_all w (none ∷ ns) now =
      let (w', rest) = recover_all w ns now in (w', tally (some nil_stalled) rest)
  recover_all w (some n ∷ ns) now =
      let (w', answer) = recover_one w n now in
      let rest = recover_all w' ns now in
      elim answer [ panics v ↦ (w', panics v) | returns e ↦ (rest.0, tally e rest.1) ]

  abbrev pub after_claim :
      W × Result (List (Option Notification)) Fault → Time → W × Outcome (ℕ × List SweepError)
  after_claim (w, err f) now = (w, returns (0, claim_failed f ∷ []))
  after_claim (w, ok ns) now = recover_all w ns now

  -- Sweep: how many rows it recovered, and the errors that it joins.
  unfoldable pub sweep : W → W × Outcome (ℕ × List SweepError)
  unfolding recover_all
  sweep w =
      let (w', now) = ports.now w in
      after_claim (ports.claim_stalled w' cfg.batch_size (now -ℤ cfg.stalled_after) now) now

  -- drain. `stopping` is `claim.Err() != nil` after a cycle; `cycle` is DispatchBatch, and gives the
  -- number of rows it claimed. Without fuel the loop has not ended.
  unfoldable pub drain : ℕ → (W → W × ℕ) → (W → Bool) → W → Option W
  drain zero cycle stopping w = none
  drain (suc fuel) cycle stopping w =
      let (w', claimed) = cycle w in
      let more = drain fuel cycle stopping w' in
      if claimed == 0 || (ltb_ℤ (pos claimed) cfg.batch_size || stopping w') then some w' else more
