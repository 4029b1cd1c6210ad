-- ===== src/Notification/Repository/Reads.antt =====
-- MarkRead and MarkAllRead of repository/notification_repo.go.
use mathlib.Core.List.{Memᴰ}
use kopiochi.Prelude.{
  ◌==◌, ◌<◌, ◌≡◌, refl, ◌⊎◌, inl, inr, Bool, true, false, ◌&&◌, none, some, [], ◌∷◌, count_by,
  arith, All, All-mono, Bool-cases,
}
use kopiochi.Notification.Domain.Types.{inapp, same_channel, Uuid, Time, not_found, ok, err}
use kopiochi.Notification.Repository.Rows.{NotificationRow}
use kopiochi.Notification.Repository.Outbox.{
  Table, domain_error, update_where, in_mailbox, coalesce, is_null, mark_read, mark_all_read,
}

-- An update that changes no row that passes its test changes nothing.
update_where_idle :
    (p : NotificationRow → Bool) (f : NotificationRow → NotificationRow) (t : Table)
    → All (λ r. (p r ≡ false) ⊎ (f r ≡ r)) t
    → update_where p f t ≡ t
unfolding update_where
update_where_idle p f [] h = refl
update_where_idle p f (r ∷ t) h = ground (arith, update_where_idle p f t h.1)

All-update_where {κ} :
    (P : NotificationRow → Type κ) (p : NotificationRow → Bool)
    (f : NotificationRow → NotificationRow)
    → ((r : NotificationRow) → p r ≡ true → P (f r))
    → ((r : NotificationRow) → p r ≡ false → P r)
    → (t : Table) → All P (update_where p f t)
unfolding update_where
All-update_where P p f hit miss [] = tt
All-update_where P p f hit miss (r ∷ t) =
    let rest = All-update_where P p f hit miss t in
    elim (Bool-cases (p r)) [ inl e ↦ rw e (hit r e, rest) | inr e ↦ rw e (miss r e, rest) ]

count_by-cases :
    (p : NotificationRow → Bool) (t : Table)
    → ((count_by p t ≡ 0) × All (λ r. p r ≡ false) t) ⊎ (0 < count_by p t)
count_by-cases p [] = inl (refl, tt)
count_by-cases p (r ∷ t) = ground (arith, count_by-cases p t)

count_by-none :
    (p : NotificationRow → Bool) (t : Table) → All (λ r. p r ≡ false) t → count_by p t ≡ 0
count_by-none p [] h = refl
count_by-none p (r ∷ t) h = ground (arith, count_by-none p t)

-- An update that its own test still passes leaves the number of rows that pass.
count_by-update_where :
    (p : NotificationRow → Bool) (f : NotificationRow → NotificationRow)
    → ((r : NotificationRow) → p (f r) ≡ p r)
    → (t : Table) → count_by p (update_where p f t) ≡ count_by p t
unfolding update_where
count_by-update_where p f same [] = refl
count_by-update_where p f same (r ∷ t) = ground (arith, same r, count_by-update_where p f same t)

-- The row of this id, recipient and the in-app channel.
abbrev pub is_mine : Uuid → Uuid → NotificationRow → Bool
is_mine recipient id r = r.id == id && (r.recipient_id == recipient && same_channel r.channel inapp)

member_of :
    (p : NotificationRow → Bool) (t : Table)
    → 0 < count_by p t
    → (r : NotificationRow) × Memᴰ r t × (p r ≡ true)
member_of p [] h = absurd (omega arith)
member_of p (r ∷ t) h = elim (Bool-cases (p r)) [
  | inl hit ↦ (r, Memᴰ.head refl, hit)
  | inr miss ↦ let (s, m, e) = member_of p t (rw miss at h) in (s, Memᴰ.tail m, e)
]

abbrev pub stamp : Time → NotificationRow → NotificationRow
stamp now r = record r { read_at = coalesce r.read_at now }

-- MarkRead answers ErrNotFound, with the table as it was, exactly when no row has the id, the
-- recipient and the in-app channel, whichever of the three is missing. Otherwise it succeeds, and
-- a repeat at any later time succeeds again and changes nothing, the first timestamp included.
pub mark_read_lem :
    (recipient id : Uuid) (now later : Time) (t : Table)
    → (All (λ r. is_mine recipient id r ≡ false) t
        × (mark_read none recipient id now t ≡ (t, err (domain_error not_found))))
      ⊎ (((row : NotificationRow) × Memᴰ row t × (is_mine recipient id row ≡ true))
          × (mark_read none recipient id now t
              ≡ (update_where (is_mine recipient id) (stamp now) t, ok tt))
          × (mark_read none recipient id later (mark_read none recipient id now t).0
              ≡ ((mark_read none recipient id now t).0, ok tt)))
unfolding mark_read
mark_read_lem recipient id now later t =
    let mine = is_mine recipient id in
    elim (count_by-cases mine t) [
      | inl (zero_rows, absent) ↦ inl (absent, rw zero_rows)
      | inr some_rows ↦
          let after = update_where mine (stamp now) t in
          let same = count_by-update_where mine (stamp now) (λ r. refl) t in
          let idle =
            update_where_idle mine (stamp later) after
              (All-update_where _ mine (stamp now) (λ r e. inr (stamped r)) (λ r e. inl e) t) in
          inr (member_of mine t some_rows, ground arith, ground arith)
    ]
  where
    stamped : (r : NotificationRow) → stamp later (stamp now r) ≡ stamp now r
    stamped r = ground arith

-- MarkAllRead reports the unread in-app rows of the recipient, and after it there are none: a repeat
-- at any time reports 0 and changes nothing.
mark_all_read_lem :
    (recipient : Uuid) (now later : Time) (t : Table)
    → let unread = λ (r : NotificationRow). in_mailbox recipient r && is_null r.read_at in
      let after = (mark_all_read none recipient now t).0 in
      ((mark_all_read none recipient now t).1 ≡ ok (count_by unread t))
      × All (λ r. unread r ≡ false) after
      × (mark_all_read none recipient later after ≡ (after, ok 0))
unfolding mark_all_read
mark_all_read_lem recipient now later t =
    let unread = λ (r : NotificationRow). in_mailbox recipient r && is_null r.read_at in
    let after = update_where unread (λ r. record r { read_at = some now }) t in
    let clear =
      All-update_where (λ r. unread r ≡ false) unread (λ r. record r { read_at = some now })
        (λ r e. ground arith) (λ r e. e) t in
    let idle =
      update_where_idle unread (λ r. record r { read_at = some later }) after
        (All-mono (λ r e. inl e) after clear) in
    (refl, clear, rw (idle, count_by-none unread after clear))
