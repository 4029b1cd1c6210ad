-- ===== src/Notification/Application/Observing.antt =====
-- The observer's place in modules/notification/application/dispatch.go: the deferred recover of
-- settleSafely calls it a second time.
use kopiochi.Prelude.{pos, ◌≡◌, Option, none, some, List, ◌∷◌, Text}
use kopiochi.Notification.Domain.Types.{
  Duration, Status, sending, DomainError, Notification, Result, ok, err,
}
use kopiochi.Notification.Domain.Backoff.{Floats}
use kopiochi.Notification.Application.Ports.{
  Outcome, returns, panics, Failure, Fault, DispatchConfig, Observer, Ports,
}
use kopiochi.Notification.Application.Dispatch.{
  CycleError, attempt_delivery, settle_outcome, observe, after_save, after_outcome, settle,
  recovering, settle_safely, settle_all,
}
use kopiochi.Notification.Application.Settling.{settle_outcome_lem}

module _ {W : Type 0} {fl : Floats} (ports : Ports W fl) (cfg : DispatchConfig) (o : Observer W)
    (v : Text) (observed : ports.observer ≡ some o)
    (bad : (w : W) (n : Notification) (s : Status) (took : Duration) (e : Option Failure)
      → (o w n s took e).1 ≡ panics v)
    (saves : (w : W) (n : Notification) → (ports.save w n).1 ≡ returns (ok tt)) where
  observe_panics :
      (w : W) (n : Notification) (took : Duration) (e : Option Failure)
      → (observe ports cfg w n took e).1 ≡ panics v
  unfolding observe
  observe_panics w n took e = rw (observed, observe) (bad w n n.status took e)

  after_save_panics :
      (x : W × Outcome (Result (Unit {0}) Fault)) (m : Notification) (took : Duration)
      (f : Option Failure)
      → x.1 ≡ returns (ok tt)
      → (after_save ports cfg x m took f).2 ≡ panics v
  after_save_panics (w, panics u) m took f h = cc
  after_save_panics (w, returns (err e)) m took f h = cc
  after_save_panics (w, returns (ok done)) m took f h = rw (observe_panics w m took f)

  after_outcome_panics :
      (x : W × (Notification × Option DomainError)) (took : Duration) (f : Option Failure)
      → x.1.1 ≡ none
      → (after_outcome ports cfg x took f).2 ≡ panics v
  after_outcome_panics (w, (m, some e)) took f h = cc
  after_outcome_panics (w, (m, none)) took f h =
      after_save_panics (ports.save w m) m took f (saves w m)

  recovering_panics :
      (x : W × Notification × Outcome (Option CycleError))
      → x.2 ≡ panics v
      → (recovering ports cfg x).1 ≡ panics v
  recovering_panics (w, n, returns e) h = cc
  recovering_panics (w, n, panics u) h = rw (observe_panics w n (pos 0) _)

  escapes :
      (w : W) (n : Notification) → n.status ≡ sending → (settle_safely ports cfg w n).1 ≡ panics v
  unfolding settle_safely settle
  escapes w n h =
      let (w₂, worth, failure) = attempt_delivery ports cfg (ports.now w).0 n in
      let now = ports.now w₂ in
      let x = settle_outcome ports cfg now.0 n now.1 worth failure in
      let fine = (settle_outcome_lem ports cfg now.0 n now.1 worth failure h).0 in
      recovering_panics _ (after_outcome_panics x _ failure fine)

  -- An observer that panics gets past settleSafely: the recover calls it again, so the panic
  -- leaves the loop of DispatchBatch at the first row that it settles, and the rows behind that one
  -- are not touched.
  pub settle_all_observer_panic :
      (w : W) (n : Notification) (ns : List (Option Notification))
      → n.status ≡ sending
      → settle_all ports cfg w (some n ∷ ns) ≡ ((settle_safely ports cfg w n).0, panics v)
  unfolding settle_all
  settle_all_observer_panic w n ns h = rw (escapes w n h, settle_all)
