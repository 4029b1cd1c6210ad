-- ===== src/Notification/Transport/Hiding.antt =====
-- What the handlers of modules/notification/transport/handler.go do not tell, and what they refuse.
use mathlib.Core.List.{Memᴰ}
use mathlib.Core.Path.{subst}
use kopiochi.Prelude.{
  ◌≡◌, refl, ap, ◌∙◌, ◌⊎◌, inl, inr, true, false, none, some, Option, Option-cases, All, Text,
  codes, [],
}
use kopiochi.Notification.Domain.Types.{Uuid, Time, not_found, ok, err}
use kopiochi.Notification.Domain.Backoff.{Floats}
use kopiochi.Notification.Repository.Outbox
use kopiochi.Notification.Repository.Outbox.{Table, update_where, RepoError, domain_error}
use kopiochi.Notification.Repository.Reads.{is_mine, stamp, mark_read_lem}
use kopiochi.Notification.Repository.Rows.{NotificationRow}
use kopiochi.Notification.Application.Ports.{Fault, Ports}
use kopiochi.Notification.Application.Service
use kopiochi.Notification.Application.Service.{invalid, validate, then_rest, names_pair}
use kopiochi.Platform.Problem.{Route, Response, no_content, failed}
use kopiochi.Notification.Transport.{Codec}
use kopiochi.Notification.Transport.Handler.{caller, mark_read}

-- The ports of a mailbox over a table answer MarkRead as the repository does when the database
-- answers, with a fault in which errors.Is finds ErrNotFound where it has none.
pub record MarksTable {W : Type 0} {fl : Floats} (ports : Ports W fl) (table : W → Table)
    : Type 0 where
  pub now_keeps : (w : W) → table (ports.now w).0 ≡ table w
  pub writes :
      (w : W) (user id : Uuid) (now : Time)
      → table (ports.mark_read w user id now).0 ≡ (Outbox.mark_read none user id now (table w)).0
  pub succeeds :
      (w : W) (user id : Uuid) (now : Time)
      → (Outbox.mark_read none user id now (table w)).1 ≡ ok tt
      → (ports.mark_read w user id now).1 ≡ ok tt
  pub misses :
      (w : W) (user id : Uuid) (now : Time)
      → (Outbox.mark_read none user id now (table w)).1 ≡ err (domain_error not_found)
      → (f : Fault) × ((ports.mark_read w user id now).1 ≡ err f) × (f.missing ≡ true)

-- The time of reading after a request at this instant: the first one stays.
abbrev first_read : Option Time → Time → Option Time
first_read none now = some now
first_read (some t) now = some t

-- The row once it was read at this instant.
abbrev pub read_by : Time → NotificationRow → NotificationRow
read_by now row = record row { read_at = first_read row.read_at now }

stamp-read_by : (now : Time) (row : NotificationRow) → stamp now row ≡ read_by now row
stamp-read_by now row = elim (Option-cases row.read_at) [
  | inl unread ↦ rw unread refl
  | inr (t, seen) ↦ rw seen refl
]

module _ {W : Type 0} {fl : Floats} (ports : Ports W fl) (codec : Codec) (r : Route) where
  -- The problem that tells nothing of a row.
  abbrev pub hidden : Response (Unit {0})
  hidden = failed [] (record {
    kind = codes "not_found";
    title = codes "Not Found";
    status = 404;
    detail = codes "No such notification.";
    instance_path = r.path;
    request_id = r.request_id;
  })

  -- The handler of MarkRead gives one answer to an id that is malformed, that no row has, and that a
  -- row of another recipient or channel has: the same problem of status 404, with the table as it was.
  -- To an id that the table has as an in-app row of the caller it answers 204, and every such row then
  -- has a time of reading, the first one if it had one, and the other rows are as they were.
  pub mark_read_uniform :
      (table : W → Table) (w : W) (subject raw : Text) (user : Uuid)
      → MarksTable ports table
      → caller codec subject ≡ some user
      → (((codec.parse_uuid raw ≡ none)
            ⊎ ((id : Uuid) × (codec.parse_uuid raw ≡ some id)
                × All (λ row. is_mine user id row ≡ false) (table w)))
          × ((mark_read ports codec r w subject raw).1 ≡ hidden)
          × (table (mark_read ports codec r w subject raw).0 ≡ table w))
        ⊎ ((id : Uuid) × (row : NotificationRow) × (codec.parse_uuid raw ≡ some id)
            × Memᴰ row (table w)
            × (is_mine user id row ≡ true)
            × ((mark_read ports codec r w subject raw).1 ≡ no_content)
            × (table (mark_read ports codec r w subject raw).0
                ≡ update_where (is_mine user id) (read_by (ports.now w).1) (table w)))
  unfolding mark_read Service.mark_read
  mark_read_uniform table w subject raw user over known =
      elim (Option-cases (codec.parse_uuid raw)) [
        | inl bad ↦ inl (inl bad, rw (known, bad) refl, rw (known, bad) refl)
        | inr (id, good) ↦
            let v = (ports.now w).0 in
            let now = (ports.now w).1 in
            let kept = over.now_keeps w in
            elim (mark_read_lem user id now now (table v)) [
              | inl (absent, missed) ↦
                  let (f, failure, missing) = over.misses v user id now (ap (λ x. x.1) missed) in
                  let same = over.writes v user id now ∙ (ap (λ x. x.0) missed ∙ kept) in
                  inl (
                    inr (id, good, subst (All (λ row. is_mine user id row ≡ false)) kept absent),
                    rw (known, good) (rw failure (rw missing refl)),
                    rw (known, good) (rw failure (rw missing same)),
                  )
              | inr ((row, member, mine), done, again) ↦
                  let found = over.succeeds v user id now (ap (λ x. x.1) done) in
                  let after =
                    over.writes v user id now
                    ∙ (ap (λ x. x.0) done ∙ ap (update_where (is_mine user id) (stamp now)) kept) in
                  inr (
                    id,
                    row,
                    good,
                    subst (Memᴰ row) kept member,
                    mine,
                    rw (known, good) (rw found refl),
                    rw (known, good) (rw found after),
                  )
            ]
      ]
