-- ===== src/Notification/Repository/Writes.antt =====
-- Enqueue and Save of repository/notification_repo.go: deduplication, and what a settled row keeps.
use kopiochi.Prelude.{
  ◌≡◌, refl, ◌⊎◌, inl, inr, true, false, Option, none, some, [], ◌∷◌, map, Text, text_eq_refl, ◌==◌,
  elem, arith, Bool-cases, if◌then◌else◌,
}
use kopiochi.Notification.Domain.Types.{
  Uuid, not_found, duplicate_idempotency_key, Notification, Result, ok, err,
}
use kopiochi.Notification.Repository.Rows.{NotificationRow, null_string, to_notification_row}
use kopiochi.Notification.Repository.Outbox.{
  Table, RepoError, domain_error, has_key, enqueue, settle_row, save,
}
use kopiochi.Notification.Repository.Updates.{
  IdsUnique, find_row, find_row-update_where, find_row-count_by,
}

-- The partial unique index: no two rows have one key, and rows without a key do not count.
abbrev pub KeysUnique : Table → Type 0
KeysUnique [] = Unit {0}
KeysUnique (r ∷ t) = (has_key r.idempotency_key t ≡ false) × KeysUnique t

-- Enqueue keeps both indexes of the table, whatever the database answers.
enqueue_unique :
    (link : Option Text) (conflict : Text) (n : Option Notification) (t : Table)
    → IdsUnique t
    → KeysUnique t
    → IdsUnique (enqueue link conflict n t).0 × KeysUnique (enqueue link conflict n t).0
unfolding enqueue
enqueue_unique link conflict none t u k = (u, k)
enqueue_unique (some e) conflict (some n) t u k = (u, k)
enqueue_unique none conflict (some n) t u k =
    elim (Bool-cases (has_key (null_string n.idempotency_key) t)) [
      | inl dup ↦ rw dup (u, k)
      | inr fresh ↦ elim (Bool-cases (elem n.id (map (λ r. r.id) t))) [
        | inl clash ↦ rw (fresh, clash) (u, k)
        | inr new ↦ rw (fresh, new) ((new, u), (fresh, k))
      ]
    ]

-- The answer says that the event is in the outbox: it was put there, or its key was there already.
abbrev pub IsQueued : Result (Unit {0}) RepoError → Type 0
IsQueued r = (r ≡ ok tt) ⊎ (r ≡ err (domain_error duplicate_idempotency_key))

has_key-after :
    (k : Text) (conflict : Text) (n : Notification) (t : Table)
    → null_string n.idempotency_key ≡ some k
    → IsQueued (enqueue none conflict (some n) t).1
    → has_key (some k) (enqueue none conflict (some n) t).0 ≡ true
unfolding enqueue
has_key-after k conflict n t e q = ground (arith, text_eq_refl k)

-- A keyed event is queued once: after an enqueue that reports it queued, whether it wrote the row
-- or found the key, every enqueue of the same key is a duplicate and leaves the table as it is.
enqueue_again :
    (k : Text) (conflict : Text) (n m : Notification) (t : Table)
    → null_string n.idempotency_key ≡ some k
    → m.idempotency_key ≡ n.idempotency_key
    → IsQueued (enqueue none conflict (some n) t).1
    → let after = (enqueue none conflict (some n) t).0 in
      enqueue none conflict (some m) after ≡ (after, err (domain_error duplicate_idempotency_key))
unfolding enqueue
enqueue_again k conflict n m t e same q =
    let found = has_key-after k conflict n t e q in ground arith

-- An event without a key is never a duplicate: with a new id it is written, ahead of the rows there.
pub enqueue_unkeyed :
    (conflict : Text) (n : Notification) (t : Table)
    → n.idempotency_key ≡ []
    → elem n.id (map (λ r. r.id) t) ≡ false
    → enqueue none conflict (some n) t ≡ (to_notification_row n ∷ t, ok tt)
unfolding enqueue
enqueue_unkeyed conflict n t e new = rw (e, new)

-- Save writes the outcome of the entity's row and no other: a row that is there keeps all but the
-- five settled columns, the other rows keep everything, and an id that is not there is ErrNotFound
-- with the table as it was.
pub save_lem :
    (n : Notification) (other : Uuid) (t : Table)
    → ((find_row n.id t ≡ none) × (save none (some n) t ≡ (t, err (domain_error not_found))))
      ⊎ ((r : NotificationRow) × (find_row n.id t ≡ some r)
          × ((save none (some n) t).1 ≡ ok tt)
          × (find_row other (save none (some n) t).0
              ≡ (if other == n.id then some (settle_row n r) else find_row other t)))
unfolding save
save_lem n other t = elim (find_row-count_by n.id t) [
  | inl (absent, zero_rows) ↦ inl (absent, rw zero_rows)
  | inr (r, found, some_rows) ↦ inr (
    r,
    found,
    ground arith,
    ground (arith, find_row-update_where n.id other (settle_row n) (λ s. refl) t),
  )
]
