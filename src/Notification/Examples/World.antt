-- ===== src/Notification/Examples/World.antt =====
-- The ports of modules/notification/application over the repositories' tables: a world in which the
-- database answers, every clock reading is a second later, and all mail is delivered but that to
-- recipient 66, whose failures can be retried.
use mathlib.Core.Path.{◌≡◌, refl, subst}
use mathlib.Core.Option.{some-injective}
use kopiochi.Prelude.{
  ℕ, suc, pos, ◌+◌, ◌*◌, ◌/◌, ◌<◌, Bool, true, false, Option, none, some, List, [], ◌∷◌, map, Text,
  codes, leb, arith, ◌==◌, if◌then◌else◌,
}
use kopiochi.Notification.Domain.Types.{
  Uuid, not_found, Channel, email, security, sending, Notification, RenderedMessage, Result, ok,
  err, NewNotificationParams, pending_row,
}
use kopiochi.Notification.Domain.Backoff.{Floats}
use kopiochi.Notification.Repository.Rows.{to_notification_row}
use kopiochi.Notification.Repository.Mailbox.{list_for_recipient}
use kopiochi.Notification.Repository.Outbox.{
  mark_read, mark_all_read, Table, RepoError, domain_error, db_error, nil_entity, enqueue,
  claim_batch, claim_stalled, save,
}
use kopiochi.Notification.Repository.Preferences.{PreferenceTable, upsert, list_for_user}
use kopiochi.Notification.Application.Ports.{returns, Fault, Sender, Ports}
use kopiochi.Notification.Application.OverTable.{OverTable}

pub scale_percent : (f n : ℕ) → leb 100 f ≡ false → 0 < n → n * f / 100 < n
scale_percent f n h p = grind arith

-- Hundredths in place of floats.
abbrev pub percents : Floats
percents = record {
  Float = ℕ;
  is_negative = λ f. false;
  is_one_or_more = λ f. leb 100 f;
  zero_float = 0;
  below_one = 99;
  scale = λ f n. n * f / 100;
  below_one_in = (refl, refl);
  zero_in = (refl, refl);
  scale_lt = λ f n neg one p fits. scale_percent f n one p;
}

pub record World : Type 0 where
  pub table : Table
  pub prefs : PreferenceTable
  pub clock : ℕ
  pub next_id : ℕ
  pub picks : List Uuid

abbrev is_not_found : RepoError → Bool
is_not_found (domain_error not_found) = true
is_not_found _ = false

abbrev repo_fault : RepoError → Fault
repo_fault e = record {
  missing = is_not_found e;
  non_retryable = false;
  duplicate = elim e [ domain_error d ↦ true | db_error t ↦ false | nil_entity ↦ false ];
  text = [];
}

abbrev lift_result : {A B : Type 0} → (A → B) → Result A RepoError → Result B Fault
lift_result f (ok a) = ok (f a)
lift_result f (err e) = err (repo_fault e)

abbrev text_result : {A : Type 0} → Result A Text → Result A Fault
text_result (ok a) = ok a
text_result (err e) =
    err (record { missing = false; non_retryable = false; duplicate = false; text = e })

abbrev pub bounced : Fault
bounced = record {
  missing = false;
  non_retryable = false;
  duplicate = false;
  text = codes "451 try later";
}

abbrev pub mailer : Sender World
mailer w msg = (w, returns (if msg.recipient_id == 66 then some bounced else none))

abbrev pub sender_of : Channel → Option (Sender World)
sender_of email = some mailer
sender_of _ = none

abbrev pub ports : Ports World percents
ports = record {
  now = λ w. (record w { clock = w.clock + 1000000000 }, pos w.clock);
  new_uuid = λ w. (record w { next_id = suc w.next_id }, w.next_id);
  enqueue = λ w n.
      let (t, r) = enqueue none (codes "23505") (some n) w.table in
      (record w { table = t }, lift_result (λ u. u) r);
  claim_batch = λ w n now.
      let (t, r) = claim_batch none w.picks n now w.table in
      (record w { table = t }, lift_result (map some) r);
  claim_stalled = λ w n before now.
      let (t, r) = claim_stalled none w.picks n before now w.table in
      (record w { table = t }, lift_result (map some) r);
  save = λ w n. (record w { table = (save none (some n) w.table).0 }, returns (ok tt));
  list_for_recipient =
      λ w user f. (w, lift_result (λ ns. ns) (list_for_recipient none user f w.table));
  mark_read = λ w user id now.
      let (t, r) = mark_read none user id now w.table in
      (record w { table = t }, lift_result (λ u. u) r);
  mark_all_read = λ w user now.
      let (t, r) = mark_all_read none user now w.table in
      (record w { table = t }, lift_result (λ n. n) r);
  list_preferences = λ w user. (w, text_result (list_for_user none user w.prefs));
  upsert = λ w ps.
      let (t, r) = upsert none (codes "21000") ps w.prefs in
      (record w { prefs = t }, text_result r);
  render = λ key ch payload. returns (
      ok (record {
        notification_id = 0;
        recipient_id = 0;
        channel = ch;
        subject = key;
        body = key;
        html_body = [];
      }));
  senders = sender_of;
  observer = none;
  jitter = none;
  error_text = λ e. codes "send failed";
}

-- The ports do what the theorems about a cycle ask of them.
pub ports-OverTable : OverTable ports (λ w. w.table)
ports-OverTable = record {
  now_keeps = λ w. refl;
  send_keeps = sends;
  jitter_keeps = λ src e. cc;
  observer_keeps = λ o e. cc;
  save_writes = λ w n. refl;
}
  where
    sends :
        (ch : Channel) (s : Sender World)
        → sender_of ch ≡ some s
        → (w : World) (msg : RenderedMessage) → (s w msg).0.table ≡ w.table
    sends email s e w msg =
        subst (λ (x : Sender World). (x w msg).0.table ≡ w.table) (some-injective mailer s e) refl
    sends _ s e w msg = cc

-- Row 7 of recipient 42 and row 8 of recipient 66, both due.
abbrev pub row_params : Uuid → Uuid → NewNotificationParams
row_params id user = record {
  id = id;
  recipient_id = user;
  channel = email;
  category = security;
  template_key = codes "security.password_changed";
  payload = none;
  idempotency_key = codes "k";
}

abbrev pub first_row : Notification
first_row = pending_row (row_params 7 42) (pos 1000)

abbrev pub second_row : Notification
second_row = record (pending_row (row_params 8 66) (pos 2000)) { idempotency_key = [] }

abbrev pub two_rows : Table
two_rows = to_notification_row first_row ∷ to_notification_row second_row ∷ []

-- Both rows, claimed at instant 1.
abbrev pub stuck_rows : Table
stuck_rows =
    record (to_notification_row first_row) { status = sending; claimed_at = some (pos 1) }
    ∷ record (to_notification_row second_row) { status = sending; claimed_at = some (pos 1) }
    ∷ []

abbrev pub world : Table → World
world t = record { table = t; prefs = []; clock = 5000; next_id = 9; picks = 7 ∷ 8 ∷ [] }
