-- ===== src/Notification/Repository/Pages.antt =====
-- The pages of ListForRecipient of repository/notification_repo.go: consecutive pieces of one ordered
-- mailbox.
use mathlib.Core.Path.{subst}
use kopiochi.Prelude.{
  ◌≤◌, ℕ, pos_part, ◌≡◌, refl, ap, ◌∙◌, Bool, true, false, ◌&&◌, none, some, [], ◌∷◌, ◌++◌, map,
  arith, ◌==◌, take, where_, All, elem, inl, inr, Bool-cases,
}
use kopiochi.Notification.Domain.Types.{Uuid, ok}
use kopiochi.Notification.Repository.Rows.{NotificationRow, from_notification_row}
use kopiochi.Notification.Repository.Outbox.{Table}
use kopiochi.Notification.Repository.Updates.{IdsUnique}
use kopiochi.Notification.Repository.Mailbox.{
  Cursor, ListFilter, normalize, seeks, comes_first, newest_first, is_listed, list_for_recipient,
}
use kopiochi.Notification.Repository.Ordering.{
  IsOrdered, NotId, comes_first_irrefl, comes_first_asym, All-where_, newest_first-IsOrdered,
  newest_first-where_, elem-NotId,
}

where_-and :
    (p q : NotificationRow → Bool) (t : Table) → where_ (λ r. p r && q r) t ≡ where_ q (where_ p t)
where_-and p q [] = refl
where_-and p q (r ∷ t) = ground (arith, where_-and p q t)

nothing_dropped :
    (p : NotificationRow → Bool) (t : Table) → All (λ r. p r ≡ true) t → where_ p t ≡ t
nothing_dropped p [] a = refl
nothing_dropped p (r ∷ t) a = rw a.0 (ap (λ l. r ∷ l) (nothing_dropped p t a.1))

-- In an ordered list the rows that come after one of it are those behind it.
where_-behind :
    (c : NotificationRow) (front rest : Table)
    → IsOrdered (front ++ c ∷ rest)
    → where_ (comes_first c) (front ++ c ∷ rest) ≡ rest
where_-behind c [] rest o = rw (comes_first_irrefl c) (nothing_dropped (comes_first c) rest o.0)
where_-behind c (r ∷ front) rest o =
    let before = comes_first_asym r c (among front o.0) in
    rw before (where_-behind c front rest o.1)
  where
    among :
        (front : Table)
        → All (λ s. comes_first r s ≡ true) (front ++ c ∷ rest)
        → comes_first r c ≡ true
    among [] a = a.0
    among (x ∷ xs) a = among xs a.1

where_-is_listed :
    (recipient : Uuid) (f : ListFilter) (c : Cursor) (t : Table)
    → where_ (is_listed recipient (record f { before = some c })) t
      ≡ where_ (seeks (some c)) (where_ (is_listed recipient (record f { before = none })) t)
where_-is_listed recipient f c [] = refl
where_-is_listed recipient f c (r ∷ t) = ground (arith, where_-is_listed recipient f c t)

-- All that a recipient's filter lists, whatever its cursor and its limit, newest first.
abbrev pub mailbox : Uuid → ListFilter → Table → Table
mailbox recipient f t = newest_first (where_ (is_listed recipient (record f { before = none })) t)

abbrev pub cursor_of : NotificationRow → Cursor
cursor_of r = record { created_at = r.created_at; id = r.id }

-- The page of a filter has between one and a hundred rows if there are as many.
abbrev pub page_size : ListFilter → ℕ
page_size f = pos_part (normalize f).limit

IdsUnique-where_ : (p : NotificationRow → Bool) (t : Table) → IdsUnique t → IdsUnique (where_ p t)
IdsUnique-where_ p [] u = tt
IdsUnique-where_ p (r ∷ t) u =
    let rest = IdsUnique-where_ p t u.1 in
    elim (Bool-cases (p r)) [
      | inl hit ↦ rw hit (
        NotId-elem r.id (where_ p t)
            (All-where_ (λ s. (r.id == s.id) ≡ false) p t (elem-NotId r.id t u.0)),
        rest,
      )
      | inr miss ↦ rw miss rest
    ]
  where
    NotId-elem : (id : Uuid) (t : Table) → NotId id t → elem id (map (λ s. s.id) t) ≡ false
    NotId-elem id [] n = refl
    NotId-elem id (s ∷ t) n = ground (arith, NotId-elem id t n.1)

pub page_size_bounds : (f : ListFilter) → (1 ≤ page_size f) × (page_size f ≤ 100)
unfolding normalize
page_size_bounds f = ground arith

-- Pages neither repeat nor skip a row: over a table with unique ids, the first page is the first rows
-- of the recipient's mailbox in the order of the query, and a page whose cursor is taken from any
-- row of it is the rows that stand directly behind that one; a page has between 1 and 100 rows,
-- or what is left.
pub list_for_recipient_pages :
    (recipient : Uuid) (f : ListFilter) (c : NotificationRow) (front rest t : Table)
    → IdsUnique t
    → mailbox recipient f t ≡ front ++ c ∷ rest
    → (list_for_recipient none recipient (record f { before = none }) t
        ≡ ok (map from_notification_row (take (page_size f) (mailbox recipient f t))))
      × (list_for_recipient none recipient (record f { before = some (cursor_of c) }) t
          ≡ ok (map from_notification_row (take (page_size f) rest)))
      × (1 ≤ page_size f)
      × (page_size f ≤ 100)
unfolding list_for_recipient normalize
list_for_recipient_pages recipient f c front rest t u e =
    let listed = where_ (is_listed recipient (record f { before = none })) t in
    let unique = IdsUnique-where_ (is_listed recipient (record f { before = none })) t u in
    let ordered = subst IsOrdered e (newest_first-IsOrdered listed unique) in
    let behind : newest_first
          (where_ (is_listed recipient (record f { before = some (cursor_of c) })) t)
        ≡ rest =
      ap newest_first (where_-is_listed recipient f (cursor_of c) t)
      ∙ (newest_first-where_ (comes_first c) listed unique
          ∙ (ap (where_ (comes_first c)) e ∙ where_-behind c front rest ordered)) in
    let (some_rows, few) = page_size_bounds f in
    (refl, ap (λ l. ok (map from_notification_row (take (page_size f) l))) behind, some_rows, few)
