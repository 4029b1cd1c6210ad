-- ===== src/Notification/Module/Accepted.antt =====
-- What Validate of modules/notification/config.go has checked of a configuration that it accepts.
use kopiochi.Prelude.{
  pos, ◌≡◌, refl, inl, inr, Bool, true, false, not, ◌&&◌, ◌||◌, Bool-cases, some, List, [], ◌∷◌,
  ◌++◌, Text, arith, is_empty, ltb_ℤ, trim_space,
}
use kopiochi.Notification.Domain.Types.{Channel, email, inapp, valid_channel, same_channel, ok}
use kopiochi.Notification.Senders.Smtp.{Address, Mime, Smtp, report, smtp_errors, new_smtp}
use kopiochi.Notification.Dispatcher.{setup_errors}
use kopiochi.Notification.Config.{
  DispatcherConfig, Config, not_positive, validate_dispatcher, check_from, validate_email,
  validate_log_sender, validate,
}
use kopiochi.Notification.Module.{smtp_config, dispatcher_config, all_deps}

report_nil {ℓ} :
    {E : Type ℓ} (b : Bool) (e : E) (es : List E) → report b e ++ es ≡ [] → (b ≡ false) × (es ≡ [])
report_nil true e es h = cc
report_nil false e es h = (refl, h)

last_nil {ℓ} : {E : Type ℓ} (b : Bool) (e : E) → report b e ≡ [] → b ≡ false
last_nil true e h = cc
last_nil false e h = refl

append_nil {ℓ} : {E : Type ℓ} (xs ys : List E) → xs ++ ys ≡ [] → (xs ≡ []) × (ys ≡ [])
append_nil [] ys h = (refl, h)
append_nil (x ∷ xs) ys h = cc

pub dispatcher_ok :
    (d : DispatcherConfig)
    → validate_dispatcher d ≡ []
    → setup_errors all_deps (dispatcher_config d) ≡ []
unfolding validate_dispatcher setup_errors
dispatcher_ok d h =
    let (poll, h₁) = report_nil (not_positive d.poll_interval) _ _ h in
    let (batch, h₂) = report_nil (not_positive d.batch_size) _ _ h₁ in
    let (workers, h₃) = report_nil (not_positive d.workers) _ _ h₂ in
    let (attempts, h₄) = report_nil (not_positive d.max_attempts) _ _ h₃ in
    let (base, h₅) = report_nil (not_positive d.backoff_base) _ _ h₄ in
    let (cap, h₆) = report_nil (not_positive d.backoff_cap) _ _ h₅ in
    let (order, h₇) = report_nil _ _ _ h₆ in
    let (stalled, h₈) = report_nil (not_positive d.stalled_after) _ _ h₇ in
    let (window, h₉) = report_nil _ _ _ h₈ in
    let drain = last_nil (not_positive d.drain_timeout) _ h₉ in
    rw (poll, batch, workers, attempts, base, cap, stalled, drain) refl

-- The sender of email that is built for a configuration.
abbrev pub smtp_of : Config → Address → Smtp
smtp_of c a = record { cfg = smtp_config c; from = a }

from_ok : (s : Text) → check_from s ≡ [] → is_empty (trim_space s) ≡ false
from_ok s h = elim (Bool-cases (is_empty (trim_space s))) [
  | inl e ↦ let bad = rw e at h in cc
  | inr e ↦ e
]

pub smtp_ok :
    (mime : Mime) (c : Config) (a : Address)
    → validate_email c ≡ []
    → c.email.enabled ≡ true
    → mime.parse_address c.email.from ≡ some a
    → new_smtp mime c.has_resolver (smtp_config c) ≡ ok (smtp_of c a)
unfolding validate_email new_smtp smtp_errors
smtp_ok mime c a h on parsed =
    let h₀ = rw on at h in
    let (resolver, h₁) = report_nil (not c.has_resolver) _ _ h₀ in
    let (timeout, h₂) = report_nil (not_positive c.email.timeout) _ _ h₁ in
    let (host, h₃) = report_nil (is_empty (trim_space c.email.smtp_host)) _ _ h₂ in
    let (port, h₄) =
      report_nil (not_positive c.email.smtp_port || ltb_ℤ (pos 65535) c.email.smtp_port) _ _ h₃ in
    let (from, h₅) = append_nil (check_from c.email.from) _ h₄ in
    let password = last_nil (is_empty c.email.password) _ h₅ in
    rw (resolver, timeout, host, port, password, parsed) refl

-- A channel that the log sender may claim.
abbrev pub IsFree : Config → Channel → Type 0
IsFree c ch =
    (valid_channel ch ≡ true)
    × (same_channel ch inapp ≡ false)
    × ((same_channel ch email && c.email.enabled) ≡ false)

pub log_ok :
    (c : Config)
    → validate_log_sender c ≡ []
    → c.log_sender.enabled ≡ true
    → IsFree c c.log_sender.channel
unfolding validate_log_sender
log_ok c h on = ground arith

pub valid_parts :
    (c : Config)
    → validate c ≡ []
    → c.enabled ≡ true
    → (validate_dispatcher c.dispatcher ≡ [])
      × (validate_email c ≡ [])
      × (validate_log_sender c ≡ [])
unfolding validate
valid_parts c valid on =
    let h₀ = rw on at valid in
    let (auth, h₁) = report_nil (not c.has_auth) _ _ h₀ in
    let (disp, h₂) = append_nil (validate_dispatcher c.dispatcher) _ h₁ in
    let (mail, log) = append_nil (validate_email c) (validate_log_sender c) h₂ in (disp, mail, log)
