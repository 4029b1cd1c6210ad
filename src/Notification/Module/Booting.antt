-- ===== src/Notification/Module/Booting.antt =====
-- A configuration that Validate of modules/notification/config.go accepts is one that module.go boots.
use kopiochi.Prelude.{
  ◌≡◌, refl, ap, sym, ◌∙◌, ◌⊎◌, inl, inr, Bool, true, false, ◌&&◌, if◌then◌else◌, Bool-cases,
  Option, none, some, List, [], ◌∷◌, ◌++◌,
}
use mathlib.Core.List.{append-nil}
use kopiochi.Notification.Domain.Types.{
  Channel, email, inapp, webhook, unknown_channel, valid_channel, same_channel, ok,
}
use kopiochi.Notification.Senders.{new_log}
use kopiochi.Notification.Senders.Smtp.{port_uses_implicit_tls, Address, Mime}
use kopiochi.Notification.Application.Setup.{find_sender, register, new_service}
use kopiochi.Notification.Config.{Config, validate_email, validate_log_sender, validate}
use kopiochi.Notification.Module.{
  AnySender, in_app, smtp, logging, Senders, add_log, build_senders, running, over, all_set,
  new_module, new_enqueuer,
}
use kopiochi.Notification.Module.Accepted.{
  dispatcher_ok, smtp_of, smtp_ok, IsFree, log_ok, valid_parts,
}

-- The senders of a configuration, with email and with a log sender on a channel.
abbrev email_part : Config → Address → Bool → Senders
email_part c a true = some (email, smtp (smtp_of c a)) ∷ []
email_part c a false = []

abbrev log_part : Bool → Channel → Senders
log_part true ch = some (ch, logging (record { channel = ch })) ∷ []
log_part false ch = []

senders_of : Config → Address → Senders
senders_of c a =
    some (inapp, in_app)
    ∷ (email_part c a c.email.enabled ++ log_part c.log_sender.enabled c.log_sender.channel)

add_log_ok :
    (c : Config) (senders : Senders)
    → validate_log_sender c ≡ []
    → add_log c senders ≡ ok (senders ++ log_part c.log_sender.enabled c.log_sender.channel)
unfolding new_log
add_log_ok c senders h = elim (Bool-cases c.log_sender.enabled) [
  | inl on ↦ rw on (rw (log_ok c h on).0 refl)
  | inr off ↦ rw off (ap ok (sym (append-nil senders)))
]

-- The sender that serves email: SMTP with the settings and the From of the configuration if email is on,
-- or else a log sender if that channel is logged.
abbrev pub email_sender : Config → Address → Option AnySender
email_sender c a =
    if c.email.enabled
    then some (
        smtp (record {
          cfg = record {
            host = c.email.smtp_host;
            port = c.email.smtp_port;
            username = c.email.username;
            password = c.email.password;
            from = c.email.from;
            timeout = c.email.timeout;
            implicit_tls = port_uses_implicit_tls c.email.smtp_port;
          };
          from = a;
        }))
    else if c.log_sender.enabled && same_channel c.log_sender.channel email
    then some (logging (record { channel = c.log_sender.channel }))
    else none

-- The routing table of those senders, by whether there is one for email and one that logs.
routed :
    (c : Config) (a : Address) (mail log : Bool) (ch : Channel)
    → (log ≡ false)
      ⊎ ((valid_channel ch ≡ true)
          × (same_channel ch inapp ≡ false)
          × ((same_channel ch email && mail) ≡ false))
    → (registry : List (Channel × AnySender)) × (new_service all_set
          (some (inapp, in_app) ∷ (email_part c a mail ++ log_part log ch))
        ≡ ok registry)
      × (find_sender inapp registry ≡ some in_app)
      × (find_sender email registry ≡ (
          if mail
          then some (smtp (smtp_of c a))
          else if log && same_channel ch email
          then some (logging (record { channel = ch }))
          else none))
unfolding new_service register find_sender
routed c a true false ch h = (_, refl, refl, refl)
routed c a false false ch h = (_, refl, refl, refl)
routed c a true true email h = elim h [ inl e ↦ cc | inr e ↦ cc e.2 ]
routed c a true true inapp h = elim h [ inl e ↦ cc | inr e ↦ cc e.1 ]
routed c a true true webhook h = (_, refl, refl, refl)
routed c a true true (unknown_channel s) h = elim h [ inl e ↦ cc | inr e ↦ cc e.0 ]
routed c a false true email h = (_, refl, refl, refl)
routed c a false true inapp h = elim h [ inl e ↦ cc | inr e ↦ cc e.1 ]
routed c a false true webhook h = (_, refl, refl, refl)
routed c a false true (unknown_channel s) h = elim h [ inl e ↦ cc | inr e ↦ cc e.0 ]

IsFree-or_off :
    (c : Config)
    → validate_log_sender c ≡ []
    → (c.log_sender.enabled ≡ false) ⊎ IsFree c c.log_sender.channel
IsFree-or_off c h = elim (Bool-cases c.log_sender.enabled) [
  | inl on ↦ inr (log_ok c h on)
  | inr off ↦ inl off
]

senders_ok :
    (mime : Mime) (c : Config) (a : Address)
    → validate_email c ≡ []
    → validate_log_sender c ≡ []
    → (c.email.enabled ≡ false) ⊎ (mime.parse_address c.email.from ≡ some a)
    → build_senders mime c ≡ ok (senders_of c a)
unfolding build_senders senders_of
senders_ok mime c a mail log parsed = elim (Bool-cases c.email.enabled) [
  | inr off ↦ rw off (add_log_ok c (some (inapp, in_app) ∷ []) log)
  | inl on ↦
      let from : mime.parse_address c.email.from ≡ some a = elim parsed [
        | inl off ↦ cc (sym on ∙ off)
        | inr e ↦ e
      ] in
      rw on (
        rw (smtp_ok mime c a mail on from)
          (add_log_ok c (some (inapp, in_app) ∷ some (email, smtp (smtp_of c a)) ∷ []) log))
]

-- An enabled configuration that Validate accepts boots, given a database, the templates, and, if email
-- is on, a From that parses: New starts a dispatcher with each of its settings in its place, and New and
-- NewEnqueuer have one and the same routing table. In it the in-app channel goes to the in-app sender,
-- and the email channel to SMTP with the settings and the From of the configuration if email is on, or
-- else to a log sender if that channel is logged, or else to none.
pub new_module_lem :
    (mime : Mime) (c : Config) (a : Address)
    → validate c ≡ []
    → c.enabled ≡ true
    → (c.email.enabled ≡ false) ⊎ (mime.parse_address c.email.from ≡ some a)
    → (registry : List (Channel × AnySender)) × (new_module mime true true c
        ≡ ok (
            running registry (record {
              poll_interval = c.dispatcher.poll_interval;
              workers = c.dispatcher.workers;
              batch_size = c.dispatcher.batch_size;
              stalled_after = c.dispatcher.stalled_after;
              max_attempts = c.dispatcher.max_attempts;
              backoff_base = c.dispatcher.backoff_base;
              backoff_cap = c.dispatcher.backoff_cap;
              drain_timeout = c.dispatcher.drain_timeout;
            })))
      × (new_enqueuer mime true true c ≡ ok (over registry))
      × (find_sender inapp registry ≡ some in_app)
      × (find_sender email registry ≡ email_sender c a)
unfolding new_module new_enqueuer senders_of
new_module_lem mime c a valid on parsed =
    let (disp, mail, log) = valid_parts c valid on in
    let (registry, served, in_app_route, email_route) =
      routed c a c.email.enabled c.log_sender.enabled c.log_sender.channel (IsFree-or_off c log) in
    let built = senders_ok mime c a mail log parsed in
    (
      registry,
      rw (built, served, dispatcher_ok c.dispatcher disp, valid, on) refl,
      rw (built, served, valid, on) refl,
      in_app_route,
      email_route,
    )
