-- ===== src/Notification/Application/Settled.antt =====
-- DispatchBatch of modules/notification/application/dispatch.go leaves no row that it claimed in
-- `sending`, if the database answers every Save and the observer keeps its contract.
use kopiochi.Prelude.{
  pos, ◌≡◌, refl, sym, ◌∙◌, ap, ◌≢◌, ◌⊎◌, inl, inr, true, Option, none, some, List, [], ◌∷◌, map,
  length, Text, arith, All, elem, Bool-cases, ◌==◌,
}
use kopiochi.Notification.Domain.Types.{
  Uuid, Duration, sending, DomainError, Notification, Result, ok, err,
}
use kopiochi.Notification.Domain.Backoff.{Floats}
use kopiochi.Notification.Repository.Rows.{NotificationRow}
use kopiochi.Notification.Repository.Outbox.{Table, save}
use kopiochi.Notification.Repository.Updates.{find_row, ids}
use kopiochi.Notification.Repository.Writes.{save_lem}
use kopiochi.Notification.Application.Ports.{
  Outcome, returns, panics, Fault, Failure, DispatchConfig, Observer, Ports,
}
use kopiochi.Notification.Application.Dispatch.{
  CycleError, nil_claimed, dispatch_batch, attempt_delivery, settle_outcome, observe, after_save,
  after_outcome, after_panic, settle, recovering, settle_safely, settle_all,
}
use kopiochi.Notification.Application.Settling.{settle_outcome_lem, settle_outcome-ne-sending}
use kopiochi.Notification.Application.OverTable.{
  OverTable, IsQuiet, settle_outcome_keeps, attempt_delivery_keeps, observe_keeps,
}

-- A row that is not there, or that is not in `sending`.
abbrev pub IsSettled : Option NotificationRow → Type 0
IsSettled none = Unit {0}
IsSettled (some r) = r.status ≢ sending

-- A save of a settled entity settles its row, and unsettles no other.
pub save-IsSettled :
    (m : Notification) (other : Uuid) (t : Table)
    → m.status ≢ sending
    → (other ≡ m.id) ⊎ IsSettled (find_row other t)
    → IsSettled (find_row other (save none (some m) t).0)
save-IsSettled m other t done before = elim (save_lem m other t) [
  | inl (absent, unchanged) ↦
      rw unchanged (elim before [ inl same ↦ rw (same, absent) tt | inr old ↦ old ])
  | inr (r, found, good, after) ↦ rw after (elim (Bool-cases (other == m.id)) [
    | inl same ↦ rw same done
    | inr differs ↦ rw differs (elim before [ inl same ↦ absurd (ground arith) | inr old ↦ old ])
  ])
]

module _ {W : Type 0} {fl : Floats} (ports : Ports W fl) (cfg : DispatchConfig) (table : W → Table)
    (over : OverTable ports table) where
  after_save_keeps :
      (x : W × Outcome (Result (Unit {0}) Fault)) (m : Notification) (took : Duration)
      (f : Option Failure)
      → table (after_save ports cfg x m took f).0 ≡ table x.0
  after_save_keeps (w, panics v) m took f = refl
  after_save_keeps (w, returns (err e)) m took f = refl
  after_save_keeps (w, returns (ok done)) m took f = observe_keeps ports cfg table over w m took f

  after_outcome_keeps :
      (x : W × (Notification × Option DomainError)) (took : Duration) (f : Option Failure)
      → x.1.1 ≡ none
      → table (after_outcome ports cfg x took f).0 ≡ (save none (some x.1.0) (table x.0)).0
  after_outcome_keeps (w, (m, some e)) took f h = cc
  after_outcome_keeps (w, (m, none)) took f h =
      after_save_keeps (ports.save w m) m took f ∙ over.save_writes w m

  after_panic_keeps :
      (id : Uuid) (v : Text) (y : W × Outcome (Unit {0}))
      → table (after_panic ports cfg id v y).0 ≡ table y.0
  after_panic_keeps id v (w, panics u) = refl
  after_panic_keeps id v (w, returns seen) = refl

  recovering_keeps :
      (x : W × Notification × Outcome (Option CycleError))
      → table (recovering ports cfg x).0 ≡ table x.0
  recovering_keeps (w, n, returns e) = refl
  recovering_keeps (w, n, panics v) =
      after_panic_keeps n.id v (observe ports cfg w n (pos 0) _)
      ∙ observe_keeps ports cfg table over w n (pos 0) _

  -- Whatever becomes of the delivery, the table gets one Save of the row's settled entity.
  settle_safely-save :
      (w : W) (n : Notification)
      → n.status ≡ sending
      → (m : Notification) × (m.id ≡ n.id)
        × (m.status ≢ sending)
        × (table (settle_safely ports cfg w n).0 ≡ (save none (some m) (table w)).0)
  unfolding settle_safely settle
  settle_safely-save w n h =
      let w₁ = (ports.now w).0 in
      let (w₂, worth, failure) = attempt_delivery ports cfg w₁ n in
      let now = ports.now w₂ in
      let x = settle_outcome ports cfg now.0 n now.1 worth failure in
      let (fine, same, _) = settle_outcome_lem ports cfg now.0 n now.1 worth failure h in
      let kept =
        settle_outcome_keeps ports cfg table over now.0 n now.1 worth failure
        ∙ (over.now_keeps w₂
            ∙ (attempt_delivery_keeps ports cfg table over w₁ n ∙ over.now_keeps w)) in
      (
        x.1.0,
        same,
        settle_outcome-ne-sending ports cfg now.0 n now.1 worth failure h,
        recovering_keeps _
            ∙ (after_outcome_keeps x _ failure fine ∙ ap (λ t. (save none (some x.1.0) t).0) kept),
      )

  -- The row of the entity is settled afterwards, and no settled row is unsettled.
  settle_safely-IsSettled :
      (w : W) (n : Notification) (other : Uuid)
      → n.status ≡ sending
      → (other ≡ n.id) ⊎ IsSettled (find_row other (table w))
      → IsSettled (find_row other (table (settle_safely ports cfg w n).0))
  settle_safely-IsSettled w n other h before =
      let (m, same, done, written) = settle_safely-save w n h in
      rw written (
        save-IsSettled m other (table w) done
          (elim before [ inl e ↦ inl (e ∙ sym same) | inr old ↦ inr old ]))

  module _ (quiet : IsQuiet ports.observer) where
    observe_returns :
        (o : Option (Observer W)) (w : W) (n : Notification) (took : Duration) (e : Option Failure)
        → ports.observer ≡ o
        → IsQuiet o
        → (observe ports cfg w n took e).1 ≡ returns tt
    unfolding observe
    observe_returns none w n took e h q = rw (h, observe)
    observe_returns (some o) w n took e h q = rw (h, observe) (q w n n.status took e)

    after_panic_returns :
        (id : Uuid) (v : Text) (y : W × Outcome (Unit {0}))
        → y.1 ≡ returns tt
        → (e : Option CycleError) × ((after_panic ports cfg id v y).1 ≡ returns e)
    after_panic_returns id v (w, panics u) h = cc
    after_panic_returns id v (w, returns seen) h = (_, refl)

    recovering_returns :
        (x : W × Notification × Outcome (Option CycleError))
        → (e : Option CycleError) × ((recovering ports cfg x).1 ≡ returns e)
    recovering_returns (w, n, returns e) = (e, refl)
    recovering_returns (w, n, panics v) =
        after_panic_returns n.id v _ (observe_returns ports.observer w n (pos 0) _ refl quiet)

    settle_safely_returns :
        (w : W) (n : Notification)
        → (e : Option CycleError) × ((settle_safely ports cfg w n).1 ≡ returns e)
    unfolding settle_safely
    settle_safely_returns w n = recovering_returns (settle ports cfg w n)

    settle_all_step :
        (w : W) (n : Notification) (ns : List (Option Notification))
        → (settle_all ports cfg w (some n ∷ ns)).0
          ≡ (settle_all ports cfg (settle_safely ports cfg w n).0 ns).0
    unfolding settle_all
    settle_all_step w n ns = let (e, back) = settle_safely_returns w n in rw (back, settle_all)

    settle_all_returns :
        (w : W) (ns : List (Option Notification))
        → (es : List CycleError) × ((settle_all ports cfg w ns).1 ≡ returns es)
    unfolding settle_all
    settle_all_returns w [] = ([], refl)
    settle_all_returns w (none ∷ ns) =
        let (es, back) = settle_all_returns w ns in (nil_claimed ∷ es, rw back refl)
    settle_all_returns w (some n ∷ ns) =
        let (e, back) = settle_safely_returns w n in
        let (es, others) = settle_all_returns (settle_safely ports cfg w n).0 ns in
        elim e
            as (λ x.
              (settle_safely ports cfg w n).1 ≡ returns x
              → (es : List CycleError) × ((settle_all ports cfg w (some n ∷ ns)).1 ≡ returns es)) [
                | none ↦ λ b. (es, ground arith)
                | some x ↦ λ b. (x ∷ es, ground arith)
              ]
          back

    -- A row that the loop settles, or that was settled before it, is settled after it.
    settle_all-IsSettled :
        (w : W) (ns : List Notification) (other : Uuid)
        → All (λ n. n.status ≡ sending) ns
        → (elem other (ids ns) ≡ true) ⊎ IsSettled (find_row other (table w))
        → IsSettled (find_row other (table (settle_all ports cfg w (map some ns)).0))
    unfolding settle_all
    settle_all-IsSettled w [] other h (inl e) = cc
    settle_all-IsSettled w [] other h (inr old) = old
    settle_all-IsSettled w (n ∷ ns) other h before = rw (settle_all_step w n (map some ns)) (
        settle_all-IsSettled (settle_safely ports cfg w n).0 ns other h.1
          (elim (Bool-cases (other == n.id)) [
            | inl mine ↦ inr (settle_safely-IsSettled w n other h.0 (inl (ground arith)))
            | inr not_mine ↦ elim before [
              | inl among ↦ inl (ground arith)
              | inr old ↦ inr (settle_safely-IsSettled w n other h.0 (inr old))
            ]
          ]))

  -- A cycle whose claim gives entities in `sending` reports how many it claimed, whatever became of
  -- them, and afterwards no row that it claimed is in `sending`: each was settled, panics of senders,
  -- renderer and Save included. It needs an observer that does not panic.
  pub dispatch_batch-IsSettled :
      (w w' : W) (ns : List Notification) (other : Uuid)
      → IsQuiet ports.observer
      → ports.claim_batch (ports.now w).0 cfg.batch_size (ports.now w).1 ≡ (w', ok (map some ns))
      → All (λ n. n.status ≡ sending) ns
      → elem other (ids ns) ≡ true
      → IsSettled (find_row other (table (dispatch_batch ports cfg w).0))
        × ((es : List CycleError) × ((dispatch_batch ports cfg w).1
              ≡ returns (length (map some ns), es)))
  unfolding dispatch_batch
  dispatch_batch-IsSettled w w' ns other quiet claimed h among =
      let (es, back) = settle_all_returns quiet w' (map some ns) in
      rw claimed (settle_all-IsSettled quiet w' ns other h (inl among), (es, rw back refl))
