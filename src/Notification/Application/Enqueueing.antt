-- ===== src/Notification/Application/Enqueueing.antt =====
-- What Enqueue of modules/notification/application/service.go answers, and what it writes.
use mathlib.Core.Path.{subst}
use kopiochi.Prelude.{
  ◌≡◌, refl, ap, sym, ◌∙◌, ◌≢◌, pos, ◌⊎◌, inl, inr, true, false, Option, none, some, List, [],
  arith, Bool-cases, if◌then◌else◌,
}
use kopiochi.Notification.Domain.Types.{
  email, security, pending, or_empty_map, DomainError, Notification, pending_row, valid_channel,
  valid_category, new_notification, Result, ok, err,
}
use kopiochi.Notification.Domain.Preference.{Preference, allowed}
use kopiochi.Notification.Domain.Construction.{IsWellFormed, new_notification_ok}
use kopiochi.Notification.Domain.Filter.{allowed_protected}
use kopiochi.Notification.Domain.Backoff.{Floats}
use kopiochi.Notification.Application.Ports.{Fault, EnqueueRequest, Ports, Sender}
use kopiochi.Notification.Application.Service.{
  ServiceError, not_enqueued, params_of, queued, unless_off, if_routable, if_valid, enqueue,
}

module _ {W : Type 0} {fl : Floats} (ports : Ports W fl) where
  -- What Enqueue makes of the outbox's answer: its state is kept, a success and a duplicate key are
  -- successes, and any other fault is reported.
  abbrev pub Passes : W × Result (Unit {0}) Fault → W × Result (Unit {0}) ServiceError → Type 0
  Passes stored x =
      (x.0 ≡ stored.0)
      × (((stored.1 ≡ ok tt) × (x.1 ≡ ok tt))
          ⊎ ((f : Fault) × (stored.1 ≡ err f)
              × (((f.duplicate ≡ true) × (x.1 ≡ ok tt))
                  ⊎ ((f.duplicate ≡ false) × (x.1 ≡ err (not_enqueued f))))))

  queued-Passes : (x : W × Result (Unit {0}) Fault) → Passes x (queued ports x)
  queued-Passes (w, ok done) = (refl, inl (refl, refl))
  queued-Passes (w, err f) = elim (Bool-cases f.duplicate) [
    | inl known ↦ (refl, inr (f, refl, inl (known, rw known refl)))
    | inr fault ↦ (refl, inr (f, refl, inr (fault, rw fault refl)))
  ]

  pub enqueue_queued :
      (w : W) (req : EnqueueRequest) (s : Sender W) (w₃ : W) (prefs : List Preference)
      → let id = (ports.new_uuid w).1 in
        let clock = ports.now (ports.new_uuid w).0 in
        req.channel ≡ email
        → req.category ≡ security
        → req.template_key ≢ []
        → req.recipient_id ≢ 0
        → id ≢ 0
        → ports.senders email ≡ some s
        → ports.list_preferences clock.0 req.recipient_id ≡ (w₃, ok prefs)
        → enqueue ports w req
          ≡ queued ports (ports.enqueue w₃ (pending_row (params_of id req) clock.1))
  unfolding enqueue
  enqueue_queued w req s w₃ prefs ch cat key user fresh routed read =
      let id = (ports.new_uuid w).1 in
      let clock = ports.now (ports.new_uuid w).0 in
      let row = pending_row (params_of id req) clock.1 in
      ap (if_valid ports clock.0) (new_notification_ok (params_of id req) clock.1 well_formed)
      ∙ (ap (λ x. if_routable ports x clock.0 row) (ap ports.senders ch ∙ routed)
          ∙ (ap (unless_off ports row) read
              ∙ ap (λ b. if b then queued ports (ports.enqueue w₃ row) else (w₃, ok tt))
                  (sure prefs)))
    where
      well_formed : IsWellFormed (params_of (ports.new_uuid w).1 req)
      well_formed = record {
        has_id = fresh;
        has_recipient = user;
        known_channel = ap valid_channel ch;
        known_category = ap valid_category cat;
        has_template = key;
      }

      sure : (prefs : List Preference) → allowed prefs req.channel req.category ≡ true
      sure prefs = rw (ch, cat) (allowed_protected prefs)

  -- A security mail is written whatever the stored preferences say, if email has a sender and the
  -- preferences can be read: a well-formed request for it goes to the outbox once, as a pending row of
  -- that recipient that is due at once and has no attempts. Enqueue succeeds if the outbox took the
  -- row or had its key already, and reports any other fault.
  pub enqueue_protected :
      (w : W) (req : EnqueueRequest) (s : Sender W) (w₃ : W) (prefs : List Preference)
      → let id = (ports.new_uuid w).1 in
        let clock = ports.now (ports.new_uuid w).0 in
        req.channel ≡ email
        → req.category ≡ security
        → req.template_key ≢ []
        → req.recipient_id ≢ 0
        → id ≢ 0
        → ports.senders email ≡ some s
        → ports.list_preferences clock.0 req.recipient_id ≡ (w₃, ok prefs)
        → Passes
            (ports.enqueue w₃ (record {
              id = id;
              recipient_id = req.recipient_id;
              channel = email;
              category = security;
              template_key = req.template_key;
              payload = or_empty_map req.payload;
              status = pending;
              attempts = pos 0;
              next_attempt_at = clock.1;
              idempotency_key = req.idempotency_key;
              read_at = none;
              last_error = [];
              created_at = clock.1;
              sent_at = none;
            }))
            (enqueue ports w req)
  enqueue_protected w req s w₃ prefs ch cat key user fresh routed read =
      let id = (ports.new_uuid w).1 in
      let clock = ports.now (ports.new_uuid w).0 in
      let row = pending_row (params_of id req) clock.1 in
      subst (λ n. Passes (ports.enqueue w₃ n) (enqueue ports w req))
        (ap (λ c. record row { channel = c; category = req.category }) ch
          ∙ ap (λ c. record row { channel = email; category = c }) cat)
        (subst (Passes (ports.enqueue w₃ row))
          (sym (enqueue_queued w req s w₃ prefs ch cat key user fresh routed read))
          (queued-Passes (ports.enqueue w₃ row)))

  if_valid_ok :
      (w : W) (r : Result Notification DomainError)
      → (if_valid ports w r).1 ≡ ok tt
      → (n : Notification) × (r ≡ ok n)
        × (((if_routable ports (ports.senders n.channel) w n).1 ≡ ok tt)
            × ((if_valid ports w r).0 ≡ (if_routable ports (ports.senders n.channel) w n).0))
  if_valid_ok w (err e) h = cc
  if_valid_ok w (ok n) h = (n, refl, (h, refl))

  if_routable_ok :
      (o : Option (Sender W)) (w : W) (n : Notification)
      → (if_routable ports o w n).1 ≡ ok tt
      → (s : Sender W) × (o ≡ some s)
        × (((unless_off ports n (ports.list_preferences w n.recipient_id)).1 ≡ ok tt)
            × ((if_routable ports o w n).0
                ≡ (unless_off ports n (ports.list_preferences w n.recipient_id)).0))
  if_routable_ok none w n h = cc
  if_routable_ok (some s) w n h = (s, refl, (h, refl))

  -- The row was held back, or the outbox took it or has its key.
  abbrev pub Ends : W → List Preference → Notification → W → Type 0
  Ends w₃ prefs n after =
      ((allowed prefs n.channel n.category ≡ false) × (after ≡ w₃))
      ⊎ ((allowed prefs n.channel n.category ≡ true)
          × (after ≡ (ports.enqueue w₃ n).0)
          × (((ports.enqueue w₃ n).1 ≡ ok tt)
              ⊎ ((f : Fault) × ((ports.enqueue w₃ n).1 ≡ err f) × (f.duplicate ≡ true))))

  queued_ok :
      (x : W × Result (Unit {0}) Fault)
      → (queued ports x).1 ≡ ok tt
      → ((queued ports x).0 ≡ x.0)
        × ((x.1 ≡ ok tt) ⊎ ((f : Fault) × (x.1 ≡ err f) × (f.duplicate ≡ true)))
  queued_ok (w, ok done) h = (refl, inl refl)
  queued_ok (w, err f) h = (refl, inr (f, refl, ground arith))

  unless_off_ok :
      (n : Notification) (x : W × Result (List Preference) Fault)
      → (unless_off ports n x).1 ≡ ok tt
      → (w₃ : W) × (prefs : List Preference) × (x ≡ (w₃, ok prefs))
        × Ends w₃ prefs n (unless_off ports n x).0
  unless_off_ok n (w, err f) h = cc
  unless_off_ok n (w, ok prefs) h = elim (Bool-cases (allowed prefs n.channel n.category)) [
    | inl on ↦
        let (same, how) = queued_ok (ports.enqueue w n) (rw on at h) in
        (w, prefs, refl, inr (on, rw on same, how))
    | inr off ↦ (w, prefs, refl, inl (off, rw off))
  ]

  -- A successful Enqueue is one of three: the user has the pair switched off, and nothing is written;
  -- or the outbox took the row; or the outbox has its key already. The row is the constructor's, and
  -- there is a sender for its channel.
  enqueue_ok :
      (w : W) (req : EnqueueRequest)
      → (enqueue ports w req).1 ≡ ok tt
      → let clock = ports.now (ports.new_uuid w).0 in
        (n : Notification) × (s : Sender W) × (w₃ : W) × (prefs : List Preference)
        × (new_notification (params_of (ports.new_uuid w).1 req) clock.1 ≡ ok n)
        × (ports.senders n.channel ≡ some s)
        × (ports.list_preferences clock.0 n.recipient_id ≡ (w₃, ok prefs))
        × Ends w₃ prefs n (enqueue ports w req).0
  unfolding enqueue
  enqueue_ok w req h =
      let clock = ports.now (ports.new_uuid w).0 in
      let (n, made, next) =
        if_valid_ok clock.0 (new_notification (params_of (ports.new_uuid w).1 req) clock.1) h in
      let (s, routed, after) = if_routable_ok (ports.senders n.channel) clock.0 n next.0 in
      let (w₃, prefs, read, ends) = unless_off_ok n _ after.0 in
      (n, s, w₃, prefs, made, routed, read, rw (next.1, after.1) ends)
