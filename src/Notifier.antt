-- ===== src/Notifier.antt =====
-- cmd/api/notifier_adapter.go: the security events of identity as requests to the outbox of the
-- notification module. What it logs is the list of the failures.
pub mod Announcing
use kopiochi.Prelude.{Option, none, some, List, [], ◌∷◌, ◌++◌, Text, codes}
use kopiochi.Notification.Domain.Types.{
  Uuid, Time, Channel, email, inapp, webhook, unknown_channel, security, Payload, Result, ok, err,
}
use kopiochi.Notification.Domain.Backoff.{Floats}
use kopiochi.Notification.Application.Ports.{EnqueueRequest, Ports}
use kopiochi.Notification.Application.Service.{ServiceError, Answer, enqueue}

-- uuid.Parse, and the two layouts of an instant in UTC: RFC 3339 with nanoseconds, and formatEventTime.
pub record Layouts : Type 0 where
  pub parse_uuid : Text → Option Uuid
  pub rfc3339 : Time → Text
  pub event_time : Time → Text

-- securityChannels
abbrev pub security_channels : List Channel
security_channels = email ∷ inapp ∷ []

-- The text of a channel, which ends its key.
abbrev pub channel_text : Channel → Text
channel_text email = codes "email"
channel_text inapp = codes "inapp"
channel_text webhook = codes "webhook"
channel_text (unknown_channel s) = s

-- An event: its name, its template, its time and its payload.
pub record Event : Type 0 where
  pub name : Text
  pub template_key : Text
  pub at : Time
  pub payload : Payload

-- The idempotency key of an event on a channel.
abbrev pub event_key : Layouts → Text → Event → Channel → Text
event_key l user e ch =
    e.name
    ++ (codes ":" ++ (user ++ (codes ":" ++ (l.rfc3339 e.at ++ (codes ":" ++ channel_text ch)))))

abbrev pub request_of : Layouts → Text → Uuid → Event → Channel → EnqueueRequest
request_of l user recipient e ch = record {
  recipient_id = recipient;
  channel = ch;
  category = security;
  template_key = e.template_key;
  payload = some e.payload;
  idempotency_key = event_key l user e ch;
}

-- What is logged: an id that is no uuid, or a channel whose Enqueue failed.
pub data Warning : Type 0 where
  not_a_uuid : Text → Warning
  not_enqueued : Channel → ServiceError → Warning

module _ {W : Type 0} {fl : Floats} (ports : Ports W fl) (l : Layouts) where
  abbrev pub warn : Channel → Answer ports (Unit {0}) → W × List Warning → W × List Warning
  warn ch (w, ok done) rest = rest
  warn ch (w, err e) (w', ws) = (w', not_enqueued ch e ∷ ws)

  -- The loop of notify.
  unfoldable pub notify_all : W → Text → Uuid → Event → List Channel → W × List Warning
  notify_all w user recipient e [] = (w, [])
  notify_all w user recipient e (ch ∷ chs) =
      let answer = enqueue ports w (request_of l user recipient e ch) in
      let rest = notify_all answer.0 user recipient e chs in warn ch answer rest

  abbrev pub notify_parsed : W → Text → Event → Option Uuid → W × List Warning
  notify_parsed w user e none = (w, not_a_uuid user ∷ [])
  notify_parsed w user e (some recipient) = notify_all w user recipient e security_channels

  -- notify
  unfoldable pub notify : W → Text → Event → W × List Warning
  unfolding notify_all
  notify w user e = notify_parsed w user e (l.parse_uuid user)

  abbrev pub locked_event : Time → Event
  locked_event until = record {
    name = codes "account_locked";
    template_key = codes "security.account_locked";
    at = until;
    payload = (codes "LockedUntil", l.event_time until) ∷ [];
  }

  -- AccountLocked
  abbrev pub account_locked : W → Text → Time → W × List Warning
  account_locked w user until = notify w user (locked_event until)

  -- MFAEnabled
  abbrev pub mfa_enabled : W → Text → Time → W × List Warning
  mfa_enabled w user at = notify w user (record {
    name = codes "mfa_enabled";
    template_key = codes "security.mfa_enabled";
    at = at;
    payload = (codes "EnabledAt", l.event_time at) ∷ [];
  })
