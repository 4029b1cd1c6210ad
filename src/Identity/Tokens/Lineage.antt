-- ===== src/Identity/Tokens/Lineage.antt =====
-- The invariants of the token table of repository/refresh_token_store.go over interleaved sessions:
-- hashes are unique, and no family ever has two live tokens.
use kopiochi.Prelude.{
  ◌+◌, ◌≤◌, ◌≡◌, refl, ap, ◌∙◌, ◌⊎◌, inl, inr, Bool, true, false, Option, none, some, [], ◌∷◌, Text,
  text_eq→eq, arith, All, Bool-cases, ==_refl, count_by, updated, find_first,
}
use kopiochi.Notification.Domain.Types.{ok}
use kopiochi.Identity.Domain.{Uuid, Time, Uuids, RefreshToken}
use kopiochi.Identity.Tokens.{
  RefreshTokenRow, Tokens, has_hash, known_hash, insert, is_unspent, is_live, to_refresh_row,
  family_for,
}
use kopiochi.Identity.Tokens.Exchange.{retire}

-- The unique index on token_hash.
abbrev pub HashesUnique : Tokens → Type 0
HashesUnique [] = Unit {0}
HashesUnique (r ∷ t) = (known_hash r.token_hash t ≡ false) × HashesUnique t

abbrev pub OneLive : Tokens → Type 0
OneLive t = (family : Uuid) → count_by (is_live family) t ≤ 1

module _ (p : RefreshTokenRow → Bool) (f : RefreshTokenRow → RefreshTokenRow)
    (same_hash : (r : RefreshTokenRow) → (f r).token_hash ≡ r.token_hash) where
  pub known_hash-updated : (h : Text) (t : Tokens) → known_hash h (updated p f t) ≡ known_hash h t
  known_hash-updated h [] = refl
  known_hash-updated h (r ∷ t) = ground (arith, same_hash r, known_hash-updated h t)

  pub updated-HashesUnique : (t : Tokens) → HashesUnique t → HashesUnique (updated p f t)
  updated-HashesUnique [] u = tt
  updated-HashesUnique (r ∷ t) u =
      let rest = updated-HashesUnique t u.1 in
      elim (Bool-cases (p r)) [
        | inl hit ↦ rw hit (rw (same_hash r) (known_hash-updated r.token_hash t ∙ u.0), rest)
        | inr miss ↦ rw miss (known_hash-updated r.token_hash t ∙ u.0, rest)
      ]

  -- An update that makes no token live makes no family's count grow.
  pub updated-count_by :
      ((r : RefreshTokenRow) (family : Uuid)
        → is_live family (f r) ≡ true
        → is_live family r ≡ true)
      → (family : Uuid) (t : Tokens)
      → count_by (is_live family) (updated p f t) ≤ count_by (is_live family) t
  updated-count_by kills family [] = omega arith
  updated-count_by kills family (r ∷ t) =
      ground (arith, kills r family, updated-count_by kills family t)

-- The rows with this hash are of this family.
abbrev pub IsOf : Text → Uuid → Tokens → Type 0
IsOf h family t = All (λ r. has_hash h r ≡ true → r.family_id ≡ family) t

-- Retiring an unspent token of a family leaves it one live token less.
pub retire-count_by :
    (now : Time) (h : Text) (family : Uuid) (t : Tokens)
    → IsOf h family t
    → count_by (is_live family) (updated (is_unspent h) (retire now) t) + count_by (is_unspent h) t
      ≤ count_by (is_live family) t
retire-count_by now h family [] o = omega arith
retire-count_by now h family (r ∷ t) o =
    ground (arith, o.0, ==_refl family, retire-count_by now h family t o.1)

unknown-IsOf : (h : Text) (family : Uuid) (t : Tokens) → known_hash h t ≡ false → IsOf h family t
unknown-IsOf h family [] e = tt
unknown-IsOf h family (r ∷ t) e = ((λ hit. cc), unknown-IsOf h family t (ground arith))

-- The token that a lookup by its hash finds has the family of every row with that hash.
pub find_first-IsOf :
    (h : Text) (q : RefreshTokenRow → Bool) (t : Tokens) (r : RefreshTokenRow)
    → ((s : RefreshTokenRow) → q s ≡ true → has_hash h s ≡ true)
    → HashesUnique t
    → find_first q t ≡ some r
    → IsOf h r.family_id t × (known_hash h t ≡ true)
find_first-IsOf h q [] r by_hash u e = cc
find_first-IsOf h q (x ∷ t) r by_hash u e = elim (Bool-cases (q x)) [
  | inl hit ↦
      let same : x ≡ r = ground arith in
      let hash = text_eq→eq x.token_hash h (by_hash x hit) in
      (
        ((λ k. ap (λ s. s.family_id) same), unknown-IsOf h r.family_id t (rw hash at u.0)),
        rw (by_hash x hit),
      )
  | inr miss ↦
      let (others, known) = find_first-IsOf h q t r by_hash u.1 (rw miss at e) in
      (((λ k. absurd (again k known)), others), ground arith)
]
  where
    again : has_hash h x ≡ true → known_hash h t ≡ true → ⊥
    again k known = let e = text_eq→eq x.token_hash h k in let out = rw e at u.0 in cc

-- An INSERT leaves the table as it was, or adds the row, whose hash was not there.
pub insert-cases :
    (link : Option Text) (conflict : Text) (gen : Uuid) (row : RefreshTokenRow) (t : Tokens)
    → ((insert link conflict gen row t).0 ≡ t)
      ⊎ ((known_hash row.token_hash t ≡ false)
          × (insert link conflict gen row t ≡ (record row { id = gen } ∷ t, ok tt)))
unfolding insert
insert-cases (some e) conflict gen row t = inl refl
insert-cases none conflict gen row t = elim (Bool-cases (known_hash row.token_hash t)) [
  | inl known ↦ inl (rw known)
  | inr new ↦ inr (new, rw new)
]

-- The row that is made of a token: live, with the token's hash, in the family that it names.
pub to_refresh_row_lem :
    (uu : Uuids) (fresh : Uuid) (token : RefreshToken) (row : RefreshTokenRow)
    → to_refresh_row uu fresh token ≡ ok row
    → (family_for uu fresh token.family_id ≡ some row.family_id)
      × (row.token_hash ≡ token.token_hash)
      × (row.revoked ≡ false)
      × (row.used_at ≡ none)
unfolding to_refresh_row
to_refresh_row_lem uu fresh token row e = ground arith
