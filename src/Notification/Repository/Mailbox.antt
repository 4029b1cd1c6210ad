-- ===== src/Notification/Repository/Mailbox.antt =====
-- ListForRecipient of repository/notification_repo.go, and ListFilter of domain/repository.go.
-- (created_at, id) orders the rows: the id is the primary key, so the order has no ties.
use kopiochi.Prelude.{
  ℤ, pos, pos_part, Bool, true, ◌&&◌, ◌||◌, Option, none, some, List, [], ◌∷◌, map, Text, ltb,
  leb_ℤ, ltb_ℤ, eq_ℤ, if◌then◌else◌, take, where_,
}
use kopiochi.Notification.Domain.Types.{Uuid, Time, Notification, Result, ok, err}
use kopiochi.Notification.Repository.Rows.{NotificationRow, from_notification_row}
use kopiochi.Notification.Repository.Outbox.{Table, RepoError, db_error, in_mailbox, is_null}

-- Cursor
pub record Cursor : Type 0 where
  pub created_at : Time
  pub id : Uuid

-- ListFilter
pub record ListFilter : Type 0 where
  pub unread_only : Bool
  pub limit : ℤ
  pub before : Option Cursor

-- ListFilter.Normalize, with DefaultListLimit and MaxListLimit.
unfoldable pub normalize : ListFilter → ListFilter
normalize f =
    let limit = if leb_ℤ f.limit (pos 0) then pos 20 else f.limit in
    record f { limit = if ltb_ℤ (pos 100) limit then pos 100 else limit }

-- (created_at, id) < (?, ?), the comparison of SQL row values.
abbrev pub seeks : Option Cursor → NotificationRow → Bool
seeks none r = true
seeks (some c) r =
    ltb_ℤ r.created_at c.created_at || eq_ℤ r.created_at c.created_at && ltb r.id c.id

-- ORDER BY created_at DESC, id DESC: the place of a row in a list that is in order.
abbrev pub comes_first : NotificationRow → NotificationRow → Bool
comes_first r s = ltb_ℤ s.created_at r.created_at || eq_ℤ s.created_at r.created_at && ltb s.id r.id

unfoldable pub put_in_order : NotificationRow → Table → Table
put_in_order r [] = r ∷ []
put_in_order r (s ∷ t) =
    let rest = put_in_order r t in if comes_first r s then r ∷ s ∷ t else s ∷ rest

unfoldable pub newest_first : Table → Table
unfolding put_in_order
newest_first [] = []
newest_first (r ∷ t) = put_in_order r (newest_first t)

-- The WHERE clauses, in the order in which the query gets them.
abbrev pub is_listed : Uuid → ListFilter → NotificationRow → Bool
is_listed recipient f r =
    in_mailbox recipient r
    && ((if f.unread_only then is_null r.read_at else true) && seeks f.before r)

-- ListForRecipient
unfoldable pub list_for_recipient :
    Option Text → Uuid → ListFilter → Table → Result (List Notification) RepoError
unfolding normalize newest_first from_notification_row
list_for_recipient (some e) recipient f t = err (db_error e)
list_for_recipient none recipient f t =
    let g = normalize f in
    ok (
      map from_notification_row
        (take (pos_part g.limit) (newest_first (where_ (is_listed recipient g) t))))
