-- ===== src/Notification/Repository/Claims.antt =====
-- The two claims of repository/notification_repo.go: what a dispatcher gets, and that no two
-- claims hand out one row.
use mathlib.Core.List.{Memᴰ}
use kopiochi.Prelude.{
  ℤ, pos, pos_part, ◌≤◌, ◌≡◌, refl, ◌⊎◌, inl, inr, ◌≤ℤ◌, Bool, true, false, none, List, [], ◌∷◌,
  map, arith, length, count_by, elem, All, leb_ℤ, ◌==◌, Bool-cases,
}
use kopiochi.Notification.Domain.Types.{Uuid, Time, pending, sending, Notification, Result, ok, err}
use kopiochi.Notification.Repository.Rows.{NotificationRow, from_notification_row}
use kopiochi.Notification.Repository.Outbox.{
  Table, RepoError, update_where, returning, is_taken, is_due, is_stalled, claim_row, restamp_row,
  claim_batch, claim_stalled,
}
use kopiochi.Notification.Repository.Updates.{
  mem-update_where, All-returning, length-map-returning, ids, elem-ids, IdsUnique, IdsUnique-eq,
}

-- What LIMIT n promises of the subquery's choice: n rows at most.
abbrev pub IsBounded : (NotificationRow → Bool) → ℤ → Table → List Uuid → Type 0
IsBounded q n t picked = count_by (is_taken q picked) t ≤ pos_part n

-- What the entity that a claim returns has to do with a row of the table.
abbrev pub IsClaimOf : Table → Time → Notification → Type 0
IsClaimOf t now n =
    (r : NotificationRow) × Memᴰ r t
    × (r.status ≡ pending)
    × (r.next_attempt_at ≤ℤ now)
    × (n ≡ record (from_notification_row r) { status = sending })

-- A claim that the database answers returns at most the batch size of entities, each the entity of
-- a stored row that was pending and due, now sending; and each row of the table afterwards is a row
-- as it was, or one that was due and picked, now sending and stamped.
claim_batch_lem :
    (t : Table) (picked : List Uuid) (n : ℤ) (now : Time) (r' : NotificationRow)
    → IsBounded (is_due now) n t picked
    → pos 1 ≤ℤ n
    → Memᴰ r' (claim_batch none picked n now t).0
    → (ns : List Notification) × ((claim_batch none picked n now t).1 ≡ ok ns)
      × (length ns ≤ pos_part n)
      × All (IsClaimOf t now) ns
      × ((r : NotificationRow) × Memᴰ r t
          × (((is_taken (is_due now) picked r ≡ true) × (r' ≡ claim_row now r))
              ⊎ ((is_taken (is_due now) picked r ≡ false) × (r' ≡ r))))
unfolding claim_batch from_notification_row
claim_batch_lem t picked n now r' pick big m = elim (Bool-cases (leb_ℤ n (pos 0))) [
  | inl small ↦ absurd (ground arith)
  | inr enough ↦ rw enough (
    _,
    refl,
    omega (arith, length-map-returning (is_taken (is_due now) picked) (claim_row now) t),
    All-returning (is_taken (is_due now) picked) (claim_row now) (IsClaimOf t now) t
        (λ r l hit. claimed r l (ground arith)),
    mem-update_where (is_taken (is_due now) picked) (claim_row now) t (rw enough at m),
  )
]
  where
    claimed :
        (r : NotificationRow)
        → Memᴰ r t
        → is_due now r ≡ true
        → IsClaimOf t now (from_notification_row (claim_row now r))
    claimed r m due = (r, m, ground arith, ground arith, refl)

-- The entities of an answer, none if it is an error.
abbrev pub claimed_in : Result (List Notification) RepoError → List Notification
claimed_in (ok ns) = ns
claimed_in (err e) = []

-- The entities that an UPDATE of the taken rows gives back.
abbrev returned :
    (NotificationRow → Bool)
    → (NotificationRow → NotificationRow)
    → List Uuid
    → Table
    → List Notification
returned q f picked t = map from_notification_row (returning (is_taken q picked) f t)

-- Another UPDATE, whose test no row of the first passes, takes none of them.
module _ (f g : NotificationRow → NotificationRow) (p q : NotificationRow → Bool)
    (same_f : (r : NotificationRow) → (f r).id ≡ r.id)
    (same_g : (r : NotificationRow) → (g r).id ≡ r.id)
    (passes : (r : NotificationRow) → p r ≡ true → q (f r) ≡ false) (t : Table) where
  passed_over :
      (picked : List Uuid) (s : NotificationRow)
      → IdsUnique t
      → Memᴰ s t
      → is_taken p picked s ≡ false
      → All (λ n. (s.id == n.id) ≡ false) (returned p f picked t)
  unfolding from_notification_row
  passed_over picked s u m out = All-returning (is_taken p picked) f _ t λ r l hit.
      rw (same_f r) (elim (Bool-cases (s.id == r.id)) [
        | inl same ↦ let e = IdsUnique-eq t u m l (ground arith) in absurd (ground arith)
        | inr other ↦ other
      ])

  second_pick :
      (first second : List Uuid)
      → IdsUnique t
      → All
          (λ m. elem m.id (ids (returned p f first t)) ≡ false)
          (returned q g second (update_where (is_taken p first) f t))
  unfolding from_notification_row
  second_pick first second u =
      All-returning (is_taken q second) g _ (update_where (is_taken p first) f t)
        λ r m hit. rw (same_g r) (fresh r m hit)
    where
      fresh :
          (r : NotificationRow)
          → Memᴰ r (update_where (is_taken p first) f t)
          → is_taken q second r ≡ true
          → elem r.id (ids (returned p f first t)) ≡ false
      fresh r m hit =
          let (s, old, how) = mem-update_where (is_taken p first) f t m in
          elim how [
            | inl (taken, e) ↦ absurd (ground (arith, passes s))
            | inr (out, e) ↦ rw e (elem-ids s.id _ (passed_over first s u old out))
          ]

All-every {ℓ κ} : {A : Type ℓ} (P : A → Type κ) → ((x : A) → P x) → (xs : List A) → All P xs
All-every P h [] = tt
All-every P h (x ∷ xs) = (h x, All-every P h xs)

-- No notification is claimed twice: after one dispatcher's claim, whichever due rows its query and
-- a later claim's query pick, the second returns no entity whose id the first returned.
pub claim_batch_disjoint :
    (t : Table) (first second : List Uuid) (n m : ℤ) (now later : Time)
    → IdsUnique t
    → All
        (λ k. elem k.id (ids (claimed_in (claim_batch none first n now t).1)) ≡ false)
        (claimed_in (claim_batch none second m later (claim_batch none first n now t).0).1)
unfolding claim_batch
claim_batch_disjoint t first second n m now later u = elim (Bool-cases (leb_ℤ m (pos 0))) [
  | inl none_wanted ↦ rw none_wanted tt
  | inr wanted ↦ elim (Bool-cases (leb_ℤ n (pos 0))) [
    | inl small ↦
        rw (wanted, small)
          (All-every _ (λ k. refl) (returned (is_due later) (claim_row later) second t))
    | inr enough ↦
        rw (wanted, enough)
          (second_pick (claim_row now) (claim_row later) (is_due now) (is_due later) (λ r. refl)
            (λ r. refl) (λ r due. refl) t first second u)
  ]
]

-- Nor is a stalled row recovered twice while a stall window lasts: a sweep that counts as stalled
-- only what was claimed before the first sweep's instant returns none of the first sweep's rows.
claim_stalled_disjoint :
    (t : Table) (first second : List Uuid) (n m : ℤ) (before now later_before later : Time)
    → later_before ≤ℤ now
    → IdsUnique t
    → All
        (λ k. elem k.id (ids (claimed_in (claim_stalled none first n before now t).1)) ≡ false)
        (claimed_in
          (claim_stalled none second m later_before later
            (claim_stalled none first n before now t).0).1)
unfolding claim_stalled
claim_stalled_disjoint t first second n m before now later_before later within u =
    elim (Bool-cases (leb_ℤ m (pos 0))) [
      | inl none_wanted ↦ rw none_wanted tt
      | inr wanted ↦ elim (Bool-cases (leb_ℤ n (pos 0))) [
        | inl small ↦
            rw (wanted, small)
              (All-every _ (λ k. refl)
                (returned (is_stalled later_before) (restamp_row later) second t))
        | inr enough ↦
            rw (wanted, enough)
              (second_pick (restamp_row now) (restamp_row later) (is_stalled before)
                (is_stalled later_before) (λ r. refl) (λ r. refl) (λ r stalled. ground arith) t
                first second u)
      ]
    ]
