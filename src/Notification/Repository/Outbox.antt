-- ===== src/Notification/Repository/Outbox.antt =====
-- modules/notification/infrastructure/persistence/repository/notification_repo.go over the table
-- as a list of rows. Each method is one statement, so it is one step on the table, and the table is
-- written whole or, if the database answers with an error, not at all: `link` is that error.
-- What a subquery with ORDER BY, LIMIT and FOR UPDATE SKIP LOCKED selects depends on the other
-- sessions' locks and on ties, so its choice among the rows that pass its WHERE is an argument,
-- `picked`: the id of a row is in the subquery's answer if the row passes and was picked.
use kopiochi.Prelude.{
  ℕ, ℤ, pos, Bool, true, false, ◌&&◌, Option, none, some, List, [], ◌∷◌, map, Text, text_eq, ◌==◌,
  leb_ℤ, ltb_ℤ, if◌then◌else◌, count_by, elem,
}
use kopiochi.Notification.Domain.Types.{
  Uuid, Time, inapp, same_channel, pending, sending, same_status, DomainError, not_found,
  duplicate_idempotency_key, Notification, Result, ok, err,
}
use kopiochi.Notification.Repository.Rows.{
  NotificationRow, null_string, to_notification_row, from_notification_row,
}

abbrev pub Table : Type 0
Table = List NotificationRow

-- An error of the repository: a sentinel of the domain, one that db.Translate lets through, or the
-- refusal of a nil entity.
pub data RepoError : Type 0 where
  domain_error : DomainError → RepoError
  db_error : Text → RepoError
  nil_entity : RepoError

-- UPDATE ... SET f WHERE p, and its RETURNING * or row count.
unfoldable pub update_where :
    (NotificationRow → Bool) → (NotificationRow → NotificationRow) → Table → Table
update_where p f [] = []
update_where p f (r ∷ t) = (if p r then f r else r) ∷ update_where p f t

unfoldable pub returning :
    (NotificationRow → Bool) → (NotificationRow → NotificationRow) → Table → Table
returning p f [] = []
returning p f (r ∷ t) = let rest = returning p f t in if p r then f r ∷ rest else rest

-- Is there a row with this non-NULL key, which is what the partial unique index holds?
unfoldable pub has_key : Option Text → Table → Bool
has_key none t = false
has_key (some k) [] = false
has_key (some k) (r ∷ t) =
    let rest = has_key (some k) t in
    elim r.idempotency_key [ none ↦ rest | some j ↦ if text_eq j k then true else rest ]

-- NotificationRepo.Enqueue. `conflict` is the database's answer to a second row with one id.
unfoldable pub enqueue :
    Option Text → Text → Option Notification → Table → Table × Result (Unit {0}) RepoError
unfolding to_notification_row has_key
enqueue link conflict none t = (t, err nil_entity)
enqueue (some e) conflict (some n) t = (t, err (db_error e))
enqueue none conflict (some n) t =
    if has_key (null_string n.idempotency_key) t
    then (t, err (domain_error duplicate_idempotency_key))
    else if elem n.id (map (λ r. r.id) t)
    then (t, err (db_error conflict))
    else (to_notification_row n ∷ t, ok tt)

-- WHERE status = 'pending' AND next_attempt_at <= now
abbrev pub is_due : Time → NotificationRow → Bool
is_due now r = same_status r.status pending && leb_ℤ r.next_attempt_at now

-- WHERE status = 'sending' AND claimed_at IS NOT NULL AND claimed_at < stalledBefore
abbrev pub claimed_before : Time → Option Time → Bool
claimed_before before none = false
claimed_before before (some c) = ltb_ℤ c before

abbrev pub is_stalled : Time → NotificationRow → Bool
is_stalled before r = same_status r.status sending && claimed_before before r.claimed_at

-- WHERE id IN (SELECT id ... WHERE q ...)
abbrev pub is_taken : (NotificationRow → Bool) → List Uuid → NotificationRow → Bool
is_taken q picked r = q r && elem r.id picked

-- SET status = 'sending', claimed_at = now
abbrev pub claim_row : Time → NotificationRow → NotificationRow
claim_row now r = record r { status = sending; claimed_at = some now }

-- SET claimed_at = now
abbrev pub restamp_row : Time → NotificationRow → NotificationRow
restamp_row now r = record r { claimed_at = some now }

-- ClaimBatch
unfoldable pub claim_batch :
    Option Text → List Uuid → ℤ → Time → Table → Table × Result (List Notification) RepoError
unfolding update_where returning from_notification_row
claim_batch link picked n now t = if leb_ℤ n (pos 0) then (t, ok []) else elim link [
  | some e ↦ (t, err (db_error e))
  | none ↦ (
    update_where (is_taken (is_due now) picked) (claim_row now) t,
    ok (map from_notification_row (returning (is_taken (is_due now) picked) (claim_row now) t)),
  )
]

-- ClaimStalled.
unfoldable pub claim_stalled :
    Option Text → List Uuid → ℤ → Time → Time → Table → Table × Result (List Notification) RepoError
unfolding update_where returning from_notification_row
claim_stalled link picked n stalled_before now t =
    if leb_ℤ n (pos 0) then (t, ok []) else elim link [
      | some e ↦ (t, err (db_error e))
      | none ↦ (
        update_where (is_taken (is_stalled stalled_before) picked) (restamp_row now) t,
        ok (
            map from_notification_row
              (returning (is_taken (is_stalled stalled_before) picked) (restamp_row now) t)),
      )
    ]

-- The five columns that Save writes.
abbrev pub settle_row : Notification → NotificationRow → NotificationRow
settle_row n r = record r {
  status = n.status;
  attempts = n.attempts;
  next_attempt_at = n.next_attempt_at;
  last_error = null_string n.last_error;
  sent_at = n.sent_at;
}

abbrev pub has_id : Uuid → NotificationRow → Bool
has_id id r = r.id == id

-- `affected == 0` is ErrNotFound.
abbrev found_or_not : ℕ → Table → Table → Table × Result (Unit {0}) RepoError
found_or_not affected before after =
    if affected == 0 then (before, err (domain_error not_found)) else (after, ok tt)

-- Save
unfoldable pub save :
    Option Text → Option Notification → Table → Table × Result (Unit {0}) RepoError
unfolding update_where
save link none t = (t, err nil_entity)
save (some e) (some n) t = (t, err (db_error e))
save none (some n) t =
    found_or_not (count_by (has_id n.id) t) t (update_where (has_id n.id) (settle_row n) t)

-- recipient_id = ? AND channel = 'inapp'
abbrev pub in_mailbox : Uuid → NotificationRow → Bool
in_mailbox recipient r = r.recipient_id == recipient && same_channel r.channel inapp

-- coalesce(read_at, now)
abbrev pub coalesce : Option Time → Time → Option Time
coalesce none now = some now
coalesce (some t) now = some t

abbrev pub is_null {ℓ} : {A : Type ℓ} → Option A → Bool
is_null none = true
is_null (some a) = false

-- MarkRead
unfoldable pub mark_read :
    Option Text → Uuid → Uuid → Time → Table → Table × Result (Unit {0}) RepoError
unfolding update_where
mark_read (some e) recipient id now t = (t, err (db_error e))
mark_read none recipient id now t =
    let mine : NotificationRow → Bool = λ r. has_id id r && in_mailbox recipient r in
    found_or_not (count_by mine t) t
      (update_where mine (λ r. record r { read_at = coalesce r.read_at now }) t)

-- MarkAllRead
unfoldable pub mark_all_read : Option Text → Uuid → Time → Table → Table × Result ℕ RepoError
unfolding update_where
mark_all_read (some e) recipient now t = (t, err (db_error e))
mark_all_read none recipient now t =
    let unread : NotificationRow → Bool = λ r. in_mailbox recipient r && is_null r.read_at in
    (update_where unread (λ r. record r { read_at = some now }) t, ok (count_by unread t))
