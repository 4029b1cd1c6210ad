-- ===== src/Notification/Repository/Updates.antt =====
-- What an UPDATE ... WHERE and its RETURNING do to a table, row by row.
use mathlib.Core.List.{Memᴰ}
use mathlib.Core.Option
use kopiochi.Prelude.{
  ◌<◌, ◌≡◌, refl, sym, ◌∙◌, ◌⊎◌, inl, inr, Bool, true, false, Option, none, some, List, [], ◌∷◌,
  map, arith, length, count_by, elem, All, ◌==◌, Bool-cases, if◌then◌else◌,
}
use kopiochi.Notification.Domain.Types.{Uuid, Notification}
use kopiochi.Notification.Repository.Rows.{NotificationRow, from_notification_row}
use kopiochi.Notification.Repository.Outbox.{Table, update_where, returning, has_id}

module _ (p : NotificationRow → Bool) (f : NotificationRow → NotificationRow) where
  pub length-returning : (t : Table) → length (returning p f t) ≡ count_by p t
  unfolding returning
  length-returning [] = refl
  length-returning (r ∷ t) = ground (arith, length-returning t)

  -- A row after the update is an updated row or one that the test passed over.
  pub mem-update_where :
      (t : Table) {r' : NotificationRow}
      → Memᴰ r' (update_where p f t)
      → (r : NotificationRow) × Memᴰ r t
        × (((p r ≡ true) × (r' ≡ f r)) ⊎ ((p r ≡ false) × (r' ≡ r)))
  unfolding update_where
  mem-update_where [] m = elim m [ ]
  mem-update_where (r ∷ t) (Memᴰ.head e) = elim (Bool-cases (p r)) [
    | inl hit ↦ (r, Memᴰ.head refl, inl (hit, ground arith))
    | inr miss ↦ (r, Memᴰ.head refl, inr (miss, ground arith))
  ]
  mem-update_where (r ∷ t) (Memᴰ.tail m) =
      let (s, old, how) = mem-update_where t m in (s, Memᴰ.tail old, how)

  -- What holds of every updated row holds of every entity that RETURNING gives back.
  pub All-returning {κ} :
      (P : Notification → Type κ) (t : Table)
      → ((r : NotificationRow) → Memᴰ r t → p r ≡ true → P (from_notification_row (f r)))
      → All P (map from_notification_row (returning p f t))
  unfolding returning
  All-returning P [] h = tt
  All-returning P (r ∷ t) h =
      let rest = All-returning P t (λ s m. h s (Memᴰ.tail m)) in
      elim (Bool-cases (p r)) [
        | inl hit ↦ rw hit (h r (Memᴰ.head refl) hit, rest)
        | inr miss ↦ rw miss rest
      ]

  pub length-map-returning :
      (t : Table) → length (map from_notification_row (returning p f t)) ≡ count_by p t
  unfolding returning
  length-map-returning [] = refl
  length-map-returning (r ∷ t) = ground (arith, length-map-returning t)

abbrev pub ids : List Notification → List Uuid
ids ns = map (λ n. n.id) ns

pub elem-ids :
    (id : Uuid) (ns : List Notification)
    → All (λ n. (id == n.id) ≡ false) ns
    → elem id (ids ns) ≡ false
elem-ids id [] h = refl
elem-ids id (n ∷ ns) h = ground (arith, elem-ids id ns h.1)

-- The primary key: no two rows have one id.
abbrev pub IdsUnique : Table → Type 0
IdsUnique [] = Unit {0}
IdsUnique (r ∷ t) = (elem r.id (map (λ s. s.id) t) ≡ false) × IdsUnique t

mem-elem :
    {r : NotificationRow} (id : Uuid) (t : Table)
    → Memᴰ r t
    → r.id ≡ id
    → elem id (map (λ s. s.id) t) ≡ true
mem-elem id [] m e = elim m [ ]
mem-elem id (s ∷ t) (Memᴰ.head h) e = ground arith
mem-elem id (s ∷ t) (Memᴰ.tail m) e = ground (arith, mem-elem id t m e)

pub IdsUnique-eq :
    {r s : NotificationRow} (t : Table) → IdsUnique t → Memᴰ r t → Memᴰ s t → r.id ≡ s.id → r ≡ s
IdsUnique-eq [] u m l e = elim m [ ]
IdsUnique-eq (x ∷ t) u (Memᴰ.head h) (Memᴰ.head k) e = h ∙ sym k
IdsUnique-eq (x ∷ t) u (Memᴰ.head h) (Memᴰ.tail l) e =
    let again = mem-elem x.id t l (ground arith) in cc
IdsUnique-eq (x ∷ t) u (Memᴰ.tail m) (Memᴰ.head k) e =
    let again = mem-elem x.id t m (ground arith) in cc
IdsUnique-eq (x ∷ t) u (Memᴰ.tail m) (Memᴰ.tail l) e = IdsUnique-eq t u.1 m l e

-- SELECT ... WHERE id = ?
unfoldable pub find_row : Uuid → Table → Option NotificationRow
find_row id [] = none
find_row id (r ∷ t) = let rest = find_row id t in if r.id == id then some r else rest

-- Rows with one id are updated alike, and the others stay.
pub find_row-update_where :
    (id other : Uuid) (f : NotificationRow → NotificationRow)
    → ((r : NotificationRow) → (f r).id ≡ r.id)
    → (t : Table)
    → find_row other (update_where (has_id id) f t)
      ≡ (if other == id then Option.map f (find_row other t) else find_row other t)
unfolding find_row update_where
find_row-update_where id other f same [] = ground arith
find_row-update_where id other f same (r ∷ t) =
    ground (arith, same r, find_row-update_where id other f same t)

pub find_row-count_by :
    (id : Uuid) (t : Table)
    → ((find_row id t ≡ none) × (count_by (has_id id) t ≡ 0))
      ⊎ ((r : NotificationRow) × (find_row id t ≡ some r) × (0 < count_by (has_id id) t))
unfolding find_row
find_row-count_by id [] = inl (refl, refl)
find_row-count_by id (r ∷ t) = elim (Bool-cases (r.id == id)) [
  | inl hit ↦ inr (r, rw hit refl, rw hit (omega arith))
  | inr miss ↦ rw miss (find_row-count_by id t)
]
