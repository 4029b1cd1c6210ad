-- ===== src/Identity/BackupCodes/Spending.antt =====
-- The backup codes of repository/mfa_store.go: each is spent once, and a new set does not end an old one.
use mathlib.Core.Path.{subst}
use mathlib.Core.Option.{some-injective}
use kopiochi.Prelude.{
  ℕ, suc, ◌+◌, ◌≡◌, refl, ap, sym, ◌∙◌, ◌⊎◌, inl, inr, Bool, true, false, not, ◌&&◌, Option, none,
  some, List, [], ◌∷◌, ◌++◌, Text, arith, ◌==◌, ==_refl, where_, find_first, count_by, All, length,
  Bool-cases,
}
use kopiochi.Notification.Domain.Types.{ok}
use kopiochi.Identity.Domain.{Uuid, Uuids}
use kopiochi.Identity.BackupCodes.{
  BackupCodeRow, BackupCodes, new_rows, store_backup_codes, is_unused, spend, spend_found,
  find_and_use_backup_code,
}

-- The primary key.
abbrev pub CodeIdsUnique : BackupCodes → Type 0
CodeIdsUnique [] = Unit {0}
CodeIdsUnique (r ∷ t) = All (λ s. (s.id == r.id) ≡ false) t × CodeIdsUnique t

-- A code of the user that was not used and that the text verifies.
abbrev pub is_match : (Text → Text → Bool) → Uuid → Text → BackupCodeRow → Bool
is_match verify user plain c = is_unused user c && verify plain c.code_hash

find_first-where_ :
    (verify : Text → Text → Bool) (user : Uuid) (plain : Text) (t : BackupCodes)
    → find_first (λ c. verify plain c.code_hash) (where_ (is_unused user) t)
      ≡ find_first (is_match verify user plain) t
find_first-where_ verify user plain [] = refl
find_first-where_ verify user plain (c ∷ t) = ground (arith, find_first-where_ verify user plain t)

spend-others : (id : Uuid) (t : BackupCodes) → All (λ s. (s.id == id) ≡ false) t → spend id t ≡ t
spend-others id [] n = refl
spend-others id (r ∷ t) n = rw n.0 (ap (λ l. r ∷ l) (spend-others id t n.1))

spend-head :
    (r : BackupCodeRow) (t : BackupCodes)
    → All (λ s. (s.id == r.id) ≡ false) t
    → spend r.id (r ∷ t) ≡ record r { used = true } ∷ t
spend-head r t n = rw (==_refl r.id, spend-others r.id t n)

spend-tail :
    (id : Uuid) (r : BackupCodeRow) (t : BackupCodes)
    → (r.id == id) ≡ false
    → spend id (r ∷ t) ≡ r ∷ spend id t
spend-tail id r t n = rw n

find_first-All {κ} :
    (P : BackupCodeRow → Type κ) (q : BackupCodeRow → Bool) (t : BackupCodes) (c : BackupCodeRow)
    → All P t
    → find_first q t ≡ some c
    → P c
find_first-All P q [] c a e = cc
find_first-All P q (r ∷ t) c a e = elim (Bool-cases (q r)) [
  | inl hit ↦ let k = rw hit at e in subst P (some-injective r c k) a.0
  | inr miss ↦ find_first-All P q t c a.1 (rw miss at e)
]

-- One unused code of the user less, one match less, and the codes of the others as they were.
abbrev pub IsSpentOnce : (Text → Text → Bool) → Uuid → Text → BackupCodes → BackupCodes → Type 0
IsSpentOnce verify user plain t after =
    (suc (count_by (is_unused user) after) ≡ count_by (is_unused user) t)
    × (suc (count_by (is_match verify user plain) after) ≡ count_by (is_match verify user plain) t)
    × (where_ (λ r. not (r.user_id == user)) after ≡ where_ (λ r. not (r.user_id == user)) t)

spent-head :
    (verify : Text → Text → Bool) (user : Uuid) (plain : Text) (r : BackupCodeRow) (t : BackupCodes)
    → is_match verify user plain r ≡ true
    → IsSpentOnce verify user plain (r ∷ t) (record r { used = true } ∷ t)
spent-head verify user plain r t hit = ground arith

spent-tail :
    (verify : Text → Text → Bool) (user : Uuid) (plain : Text) (r : BackupCodeRow)
    (t after : BackupCodes)
    → IsSpentOnce verify user plain t after
    → IsSpentOnce verify user plain (r ∷ t) (r ∷ after)
spent-tail verify user plain r t after h = ground arith

spend-first :
    (verify : Text → Text → Bool) (user : Uuid) (plain : Text) (t : BackupCodes) (c : BackupCodeRow)
    → CodeIdsUnique t
    → find_first (is_match verify user plain) t ≡ some c
    → IsSpentOnce verify user plain t (spend c.id t)
spend-first verify user plain [] c u e = cc
spend-first verify user plain (r ∷ t) c u e = elim (Bool-cases (is_match verify user plain r)) [
  | inl hit ↦
      let k = rw hit at e in
      let head = ap (λ x. spend x.id (r ∷ t)) (sym (some-injective r c k)) ∙ spend-head r t u.0 in
      subst (IsSpentOnce verify user plain (r ∷ t)) (sym head)
        (spent-head verify user plain r t hit)
  | inr miss ↦
      let k = rw miss at e in
      let apart =
        find_first-All (λ s. (s.id == r.id) ≡ false) (is_match verify user plain) t c u.0 k in
      let tail = spend-tail c.id r t (ground arith) in
      subst (IsSpentOnce verify user plain (r ∷ t)) (sym tail)
        (spent-tail verify user plain r t (spend c.id t) (spend-first verify user plain t c u.1 k))
]

no_match :
    (verify : Text → Text → Bool) (user : Uuid) (plain : Text) (t : BackupCodes)
    → find_first (is_match verify user plain) t ≡ none
    → count_by (is_match verify user plain) t ≡ 0
no_match verify user plain [] e = refl
no_match verify user plain (r ∷ t) e = ground (arith, no_match verify user plain t)

-- A backup code is spent once: over a table with unique ids and a database that answers, a search
-- for a user finds exactly if an unused code of theirs verifies the text. If one does, there is one
-- such code less afterwards, and one unused code of the user less, and the codes of other users
-- are as they were; if none does, the table is as it was.
pub find_and_use_backup_code_lem :
    (uu : Uuids) (verify : Text → Text → Bool) (user : Uuid) (plain : Text) (t : BackupCodes)
    → CodeIdsUnique t
    → let x = find_and_use_backup_code uu verify none none (uu.to_text user) plain t in
      ((x ≡ (t, ok false)) × (count_by (is_match verify user plain) t ≡ 0))
      ⊎ ((x.1 ≡ ok true) × IsSpentOnce verify user plain t x.0)
unfolding find_and_use_backup_code
find_and_use_backup_code_lem uu verify user plain t u =
    rw (uu.parse-to_text user, find_first-where_ verify user plain t)
      (go (find_first (is_match verify user plain) t) refl)
  where
    go :
        (o : Option BackupCodeRow)
        → find_first (is_match verify user plain) t ≡ o
        → ((spend_found none o t ≡ (t, ok false)) × (count_by (is_match verify user plain) t ≡ 0))
          ⊎ (((spend_found none o t).1 ≡ ok true)
              × IsSpentOnce verify user plain t (spend_found none o t).0)
    go none e = inl (refl, no_match verify user plain t e)
    go (some c) e = inr (refl, spend-first verify user plain t c u e)

count_by-append :
    (p : BackupCodeRow → Bool) (s t : BackupCodes)
    → count_by p (s ++ t) ≡ count_by p s + count_by p t
count_by-append p [] t = omega arith
count_by-append p (r ∷ s) t = ground (arith, count_by-append p s t)

count_by-new_rows :
    (gen : ℕ → Uuid) (i : ℕ) (user : Uuid) (hashes : List Text)
    → count_by (is_unused user) (new_rows gen i user hashes) ≡ length hashes
unfolding new_rows
count_by-new_rows gen i user [] = refl
count_by-new_rows gen i user (h ∷ hashes) =
    ground (arith, ==_refl user, count_by-new_rows gen (suc i) user hashes)

-- A new set of backup codes is added to the old one: the user then has the unused codes that they had
-- and the new ones besides, and each row that was there is there as it was.
store_backup_codes_lem :
    (uu : Uuids) (gen : ℕ → Uuid) (user : Uuid) (hashes : List Text) (t : BackupCodes)
    → let x = store_backup_codes uu none gen (uu.to_text user) hashes t in
      (x.1 ≡ ok tt)
      × (x.0 ≡ t ++ new_rows gen 0 user hashes)
      × (count_by (is_unused user) x.0 ≡ count_by (is_unused user) t + length hashes)
unfolding store_backup_codes
store_backup_codes_lem uu gen user hashes t = rw (uu.parse-to_text user) (
  refl,
  refl,
  count_by-append (is_unused user) t (new_rows gen 0 user hashes)
      ∙ ap (λ k. count_by (is_unused user) t + k) (count_by-new_rows gen 0 user hashes),
)
