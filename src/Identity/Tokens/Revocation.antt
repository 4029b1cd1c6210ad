-- ===== src/Identity/Tokens/Revocation.antt =====
-- The lookups and the revocations of repository/refresh_token_store.go.
use kopiochi.Prelude.{
  ◌≡◌, refl, ap, sym, ◌∙◌, inl, inr, Bool, true, false, not, ◌&&◌, Option, none, some, [], ◌∷◌,
  Text, text_eq→eq, arith, All, Bool-cases, ◌==◌, if◌then◌else◌, count_by, updated, where_,
  find_first, ltb_ℤ,
}
use kopiochi.Notification.Domain.Types.{Result, ok, err}
use kopiochi.Identity.Domain.{Uuid, Time, Uuids, RefreshToken, usable, expired}
use kopiochi.Identity.Tokens.{
  is_unset, is_set, RefreshTokenRow, Tokens, TokenError, invalid_token, not_found, scan, has_hash,
  known_hash, is_unspent, is_live, mark_reuse, revoke_family, revoke_all_for_user, find_valid,
  find_any, from_refresh_row,
}
use kopiochi.Identity.Tokens.Lineage.{HashesUnique}

abbrev valid_at : Text → Time → RefreshTokenRow → Bool
valid_at h now r = is_unspent h r && ltb_ℤ now r.expires_at

-- A row by its hash, if it passes a test that only rows with that hash pass.
find_first-where :
    (h : Text) (q : RefreshTokenRow → Bool) (t : Tokens)
    → ((s : RefreshTokenRow) → q s ≡ true → has_hash h s ≡ true)
    → known_hash h t ≡ false
    → find_first q t ≡ none
find_first-where h q [] only u = refl
find_first-where h q (r ∷ t) only u = ground (arith, only r, find_first-where h q t only)

abbrev kept : (RefreshTokenRow → Bool) → Option RefreshTokenRow → Option RefreshTokenRow
kept q none = none
kept q (some r) = if q r then some r else none

find_first-kept :
    (h : Text) (q : RefreshTokenRow → Bool) (t : Tokens)
    → ((s : RefreshTokenRow) → q s ≡ true → has_hash h s ≡ true)
    → HashesUnique t
    → find_first q t ≡ kept q (find_first (has_hash h) t)
find_first-kept h q [] only u = refl
find_first-kept h q (r ∷ t) only u = elim (Bool-cases (has_hash h r)) [
  | inl hit ↦
      let e = text_eq→eq r.token_hash h hit in
      let gone = find_first-where h q t only (rw e at u.0) in rw (hit, gone)
  | inr miss ↦
      let out : q r ≡ false = ground (arith, only r) in
      rw (miss, out) (find_first-kept h q t only u.1)
]

-- What FindValid makes of the answer of FindAny.
abbrev pub if_usable : Time → Result RefreshToken TokenError → Result RefreshToken TokenError
if_usable now (err e) = err invalid_token
if_usable now (ok token) = if usable token now then ok token else err invalid_token

find_first-passes :
    (q : RefreshTokenRow → Bool) (t : Tokens) (r : RefreshTokenRow)
    → find_first q t ≡ some r
    → q r ≡ true
find_first-passes q [] r e = cc
find_first-passes q (x ∷ t) r e = elim (Bool-cases (q x)) [
  | inl hit ↦ let same : x ≡ r = ground arith in ap q (sym same) ∙ hit
  | inr miss ↦ find_first-passes q t r (rw miss at e)
]

is_unset-is_set : (o : Option Time) → is_unset o ≡ not (is_set o)
is_unset-is_set none = refl
is_unset-is_set (some t) = refl

valid_at-usable :
    (uu : Uuids) (h : Text) (now : Time) (r : RefreshTokenRow)
    → has_hash h r ≡ true
    → valid_at h now r ≡ usable (from_refresh_row uu r) now
unfolding from_refresh_row usable expired
valid_at-usable uu h now r hit = let unused = is_unset-is_set r.used_at in ground arith

scan-kept :
    (uu : Uuids) (h : Text) (now : Time) (o : Option RefreshTokenRow)
    → ((r : RefreshTokenRow) → o ≡ some r → has_hash h r ≡ true)
    → scan uu invalid_token (kept (valid_at h now) o) ≡ if_usable now (scan uu not_found o)
scan-kept uu h now none hit = refl
scan-kept uu h now (some r) hit = elim (Bool-cases (usable (from_refresh_row uu r) now)) [
  | inl good ↦ rw (valid_at-usable uu h now r (hit r refl), good)
  | inr bad ↦ rw (valid_at-usable uu h now r (hit r refl), bad)
]

-- The filters of FindValid's SQL are the domain's Usable: where hashes are unique, FindValid gives
-- the token that FindAny gives if it is usable at the database's time, and refuses it otherwise.
pub find_valid-usable :
    (uu : Uuids) (h : Text) (now : Time) (t : Tokens)
    → HashesUnique t
    → find_valid uu none h now t ≡ if_usable now (find_any uu none h t)
unfolding find_valid find_any
find_valid-usable uu h now t u =
    rw (find_first-kept h (valid_at h now) t (λ s hit. ground arith) u)
      (scan-kept uu h now (find_first (has_hash h) t) (find_first-passes (has_hash h) t))

-- Both revocations are an UPDATE: rows that pass are revoked, and the others stay.
abbrev pub Revokes : (RefreshTokenRow → Bool) → Tokens → Tokens → Type 0
Revokes p t after =
    All (λ r. (p r ≡ true) → r.revoked ≡ true) after
    × (where_ (λ r. not (p r)) after ≡ where_ (λ r. not (p r)) t)

updated-Revokes :
    (p q : RefreshTokenRow → Bool) (f : RefreshTokenRow → RefreshTokenRow)
    → ((r : RefreshTokenRow)
        → (q r ≡ true)
        → (p r ≡ true) × ((f r).revoked ≡ true) × (p (f r) ≡ true))
    → ((r : RefreshTokenRow) → (p r ≡ true) → (q r ≡ false) → r.revoked ≡ true)
    → (t : Tokens) → Revokes p t (updated q f t)
updated-Revokes p q f hits rest [] = (tt, refl)
updated-Revokes p q f hits rest (r ∷ t) =
    let (all, same) = updated-Revokes p q f hits rest t in
    elim (Bool-cases (q r)) [
      | inl hit ↦
          let (was, dead, still) = hits r hit in rw (hit, was, still) (((λ k. dead), all), same)
      | inr miss ↦
          rw miss (((λ k. rest r k miss), all), ap (λ u. if not (p r) then r ∷ u else u) same)
    ]

-- RevokeFamily of a family's text ends the family: it reports how many of its tokens were live,
-- afterwards every token of the family is revoked, and
-- the rows of the other families are what they were, in the same order.
pub revoke_family_lem :
    (uu : Uuids) (now : Time) (family : Uuid) (t : Tokens)
    → let x = revoke_family uu none now (uu.to_text family) t in
      (x.1 ≡ ok (count_by (is_live family) t)) × Revokes (λ r. r.family_id == family) t x.0
unfolding revoke_family
revoke_family_lem uu now family t = rw (uu.parse-to_text family) (
  refl,
  updated-Revokes (λ r. r.family_id == family) (is_live family) (mark_reuse now)
      (λ r k. (ground arith, refl, ground arith)) (λ r k m. ground arith) t,
)

-- RevokeAllForUser ends every session of the user and no other: afterwards each token of the user is
-- revoked, and the rows of the other users are what they were, in the same order.
pub revoke_all_for_user_lem :
    (uu : Uuids) (user : Uuid) (t : Tokens)
    → let x = revoke_all_for_user uu none (uu.to_text user) t in
      (x.1 ≡ ok tt) × Revokes (λ r. r.user_id == user) t x.0
unfolding revoke_all_for_user
revoke_all_for_user_lem uu user t = rw (uu.parse-to_text user) (
  refl,
  updated-Revokes (λ r. r.user_id == user) (λ r. r.user_id == user)
      (λ r. record r { revoked = true }) (λ r k. (k, refl, k)) (λ r k m. cc) t,
)
