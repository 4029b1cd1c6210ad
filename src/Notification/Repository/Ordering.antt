-- ===== src/Notification/Repository/Ordering.antt =====
-- The order of ListForRecipient in repository/notification_repo.go, and that the query may filter before
-- or after it orders.
use kopiochi.Prelude.{
  ◌≡◌, refl, ap, sym, ◌∙◌, Bool, true, false, [], ◌∷◌, map, arith, ◌==◌, if◌then◌else◌, where_, All,
  All-mono, elem, inl, inr, Bool-cases,
}
use kopiochi.Notification.Domain.Types.{Uuid}
use kopiochi.Notification.Repository.Rows.{NotificationRow}
use kopiochi.Notification.Repository.Outbox.{Table}
use kopiochi.Notification.Repository.Updates.{IdsUnique}
use kopiochi.Notification.Repository.Mailbox.{comes_first, put_in_order, newest_first}

comes_first_trans :
    (a b c : NotificationRow)
    → comes_first a b ≡ true
    → comes_first b c ≡ true
    → comes_first a c ≡ true
comes_first_trans a b c h k = ground arith

pub comes_first_irrefl : (a : NotificationRow) → comes_first a a ≡ false
comes_first_irrefl a = ground arith

pub comes_first_asym : (a b : NotificationRow) → comes_first a b ≡ true → comes_first b a ≡ false
comes_first_asym a b h = ground arith

comes_first_total :
    (a b : NotificationRow)
    → (a.id == b.id) ≡ false
    → comes_first a b ≡ false
    → comes_first b a ≡ true
comes_first_total a b e h = ground arith

-- Each row comes before all that follow it.
abbrev pub IsOrdered : Table → Type 0
IsOrdered [] = Unit {0}
IsOrdered (r ∷ t) = All (λ s. comes_first r s ≡ true) t × IsOrdered t

All-put_in_order {κ} :
    (P : NotificationRow → Type κ) (r : NotificationRow) (t : Table)
    → P r
    → All P t
    → All P (put_in_order r t)
unfolding put_in_order
All-put_in_order P r [] h a = (h, tt)
All-put_in_order P r (s ∷ t) h a =
    let rest = All-put_in_order P r t h a.1 in
    elim (Bool-cases (comes_first r s)) [
      | inl first ↦ rw first (h, a)
      | inr later ↦ rw later (a.0, rest)
    ]

-- The rows whose ids are not this one.
abbrev pub NotId : Uuid → Table → Type 0
NotId id t = All (λ s. (id == s.id) ≡ false) t

put_in_order-IsOrdered :
    (r : NotificationRow) (t : Table) → NotId r.id t → IsOrdered t → IsOrdered (put_in_order r t)
unfolding put_in_order
put_in_order-IsOrdered r [] n o = (tt, tt)
put_in_order-IsOrdered r (s ∷ t) n o =
    let rest = put_in_order-IsOrdered r t n.1 o.1 in
    elim (Bool-cases (comes_first r s)) [
      | inl first ↦ rw first ((first, All-mono (λ x h. comes_first_trans r s x first h) t o.0), o)
      | inr later ↦ rw later (
        All-put_in_order (λ x. comes_first s x ≡ true) r t (comes_first_total r s n.0 later) o.0,
        rest,
      )
    ]

All-newest_first {κ} : (P : NotificationRow → Type κ) (t : Table) → All P t → All P (newest_first t)
unfolding newest_first
All-newest_first P [] a = tt
All-newest_first P (r ∷ t) a = All-put_in_order P r (newest_first t) a.0 (All-newest_first P t a.1)

pub elem-NotId : (id : Uuid) (t : Table) → elem id (map (λ s. s.id) t) ≡ false → NotId id t
elem-NotId id [] e = tt
elem-NotId id (s ∷ t) e = (ground arith, elem-NotId id t (ground arith))

pub newest_first-IsOrdered : (t : Table) → IdsUnique t → IsOrdered (newest_first t)
unfolding newest_first
newest_first-IsOrdered [] u = tt
newest_first-IsOrdered (r ∷ t) u =
    put_in_order-IsOrdered r (newest_first t)
      (All-newest_first (λ s. (r.id == s.id) ≡ false) t (elem-NotId r.id t u.0))
      (newest_first-IsOrdered t u.1)

pub All-where_ {κ} :
    (P : NotificationRow → Type κ) (p : NotificationRow → Bool) (t : Table)
    → All P t
    → All P (where_ p t)
All-where_ P p [] a = tt
All-where_ P p (r ∷ t) a =
    let rest = All-where_ P p t a.1 in
    elim (Bool-cases (p r)) [ inl hit ↦ rw hit (a.0, rest) | inr miss ↦ rw miss rest ]

-- A row that comes before all of a list is put ahead of it.
put_in_order-first :
    (r : NotificationRow) (t : Table)
    → All (λ s. comes_first r s ≡ true) t
    → put_in_order r t ≡ r ∷ t
unfolding put_in_order
put_in_order-first r [] a = refl
put_in_order-first r (s ∷ t) a = rw a.0

-- Filtering and putting a row in order, in either sequence.
where_-put_in_order :
    (p : NotificationRow → Bool) (r : NotificationRow) (t : Table)
    → IsOrdered t
    → where_ p (put_in_order r t) ≡ (if p r then put_in_order r (where_ p t) else where_ p t)
unfolding put_in_order
where_-put_in_order p r [] o = refl
where_-put_in_order p r (s ∷ t) o =
    let ih = where_-put_in_order p r t o.1 in
    elim (Bool-cases (comes_first r s)) [
      | inl first ↦
          let behind : All (λ x. comes_first r x ≡ true) (s ∷ t) =
            (first, All-mono (λ x h. comes_first_trans r s x first h) t o.0) in
          let ahead = put_in_order-first r (where_ p (s ∷ t)) (All-where_ _ p (s ∷ t) behind) in
          elim (Bool-cases (p r)) [
            | inl hit ↦ rw (first, hit) (sym ahead)
            | inr miss ↦ rw (first, miss)
          ]
      | inr later ↦ elim (Bool-cases (p s)) [
        | inl kept ↦ elim (Bool-cases (p r)) [
          | inl hit ↦ let same = rw hit at ih in rw (later, kept, hit, later) (ap (λ l. s ∷ l) same)
          | inr miss ↦ let same = rw miss at ih in rw (later, kept, miss) (ap (λ l. s ∷ l) same)
        ]
        | inr dropped ↦ elim (Bool-cases (p r)) [
          | inl hit ↦ let same = rw hit at ih in rw (later, dropped, hit) same
          | inr miss ↦ let same = rw miss at ih in rw (later, dropped, miss) same
        ]
      ]
    ]

-- A query may filter before it orders, or after.
pub newest_first-where_ :
    (p : NotificationRow → Bool) (t : Table)
    → IdsUnique t
    → newest_first (where_ p t) ≡ where_ p (newest_first t)
unfolding newest_first
newest_first-where_ p [] u = refl
newest_first-where_ p (r ∷ t) u =
    let moved = where_-put_in_order p r (newest_first t) (newest_first-IsOrdered t u.1) in
    let ih = newest_first-where_ p t u.1 in
    elim (Bool-cases (p r)) [
      | inl hit ↦ let there = rw hit at moved in rw hit (ap (put_in_order r) ih ∙ sym there)
      | inr miss ↦ let there = rw miss at moved in rw miss (ih ∙ sym there)
    ]
