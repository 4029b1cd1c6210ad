-- ===== src/Identity/Tokens/Rotation.antt =====
-- Rotate of repository/refresh_token_store.go: all or nothing.
use mathlib.Core.Option.{some-injective}
use kopiochi.Prelude.{
  ◌<◌, ◌≡◌, refl, sym, ◌⊎◌, inl, inr, Bool, true, false, not, ◌&&◌, Option, none, some, [], ◌∷◌,
  Text, text_eq, arith, Bool-cases, Option-cases, ◌==◌, count_by, updated,
}
use kopiochi.Notification.Domain.Types.{Result, ok, err}
use kopiochi.Identity.Domain.{Uuid, Time, Uuids, RefreshToken}
use kopiochi.Identity.Tokens.{
  RefreshTokenRow, Tokens, TokenError, db_error, already_used, known_hash, insert, is_unset,
  is_unspent, to_refresh_row, family_for,
}
use kopiochi.Identity.Tokens.Exchange.{
  committed, TxFaults, exchange, in_tx, rotate_row, retire, rotate,
}

abbrev pub no_faults : TxFaults
no_faults = record { begin_ = none; update = none; insert = none; commit = none }

-- The rows that hold this hash, are not revoked and were never used.
abbrev pub is_open : Text → RefreshTokenRow → Bool
is_open h r = text_eq r.token_hash h && (not r.revoked && is_unset r.used_at)

-- The table in which the open rows of a hash were used at an instant, and revoked.
abbrev pub spent_at : Time → Text → Tokens → Tokens
spent_at now old t = updated (is_open old) (λ r. record r { used_at = some now; revoked = true }) t

-- The row of a token, before the database gives it an id.
pub record IsRowOf (uu : Uuids) (fresh : Uuid) (token : RefreshToken) (row : RefreshTokenRow)
    : Type 0 where
  pub user : uu.parse token.user_id ≡ some row.user_id
  pub hash : row.token_hash ≡ token.token_hash
  pub expiry : row.expires_at ≡ token.expires_at
  pub family :
      ((token.family_id ≡ []) × (row.family_id ≡ fresh))
      ⊎ (uu.parse token.family_id ≡ some row.family_id)
  pub live : (row.revoked ≡ false) × (row.used_at ≡ none) × (row.reuse_detected_at ≡ none)

-- What a Rotate that succeeded did.
pub record IsRotated (gen : Uuid) (now : Time) (old : Text) (row : RefreshTokenRow)
    (t after : Tokens) : Type 0 where
  pub retired : 0 < count_by (is_open old) t
  pub fresh : known_hash row.token_hash (spent_at now old t) ≡ false
  pub result : after ≡ record row { id = gen } ∷ spent_at now old t

module _ (faults : TxFaults) (conflict : Text) (gen : Uuid) (now : Time) (old : Text)
    (row : RefreshTokenRow) (t : Tokens) where
  abbrev Fails : Tokens × Result (Unit {0}) TokenError → Type 0
  Fails x = (x.0 ≡ t) × (e : TokenError) × (x.1 ≡ err e)

  abbrev Succeeds : Tokens × Result (Unit {0}) TokenError → Type 0
  Succeeds x = (x.1 ≡ ok tt) × IsRotated gen now old row t x.0

  exchange-cases :
      ((e : TokenError) × ((exchange faults conflict gen now old row t).1 ≡ err e))
      ⊎ Succeeds (exchange faults conflict gen now old row t)
  unfolding insert
  exchange-cases = go faults.update faults.insert refl refl
    where
      go :
          (u i : Option Text)
          → faults.update ≡ u
          → faults.insert ≡ i
          → ((e : TokenError) × ((exchange faults conflict gen now old row t).1 ≡ err e))
            ⊎ Succeeds (exchange faults conflict gen now old row t)
      go (some e) i hu hi = inl (db_error e, rw hu refl)
      go none (some e) hu hi = elim (Bool-cases (count_by (is_unspent old) t == 0)) [
        | inl zero_rows ↦ inl (already_used, rw (hu, zero_rows) refl)
        | inr some_rows ↦ inl (db_error e, rw (hu, some_rows, hi) refl)
      ]
      go none none hu hi = elim (Bool-cases (count_by (is_unspent old) t == 0)) [
        | inl zero_rows ↦ inl (already_used, rw (hu, zero_rows) refl)
        | inr some_rows ↦
            elim (Bool-cases
              (known_hash row.token_hash (updated (is_unspent old) (retire now) t))) [
                | inl clash ↦ inl (db_error conflict, rw (hu, some_rows, hi, clash) refl)
                | inr new ↦ inr (
                    rw (hu, some_rows, hi, new)
                      (refl, record { retired = ground arith; fresh = new; result = refl }))
              ]
      ]

  committed-cases :
      (commit : Option Text) (x : Tokens × Result (Unit {0}) TokenError)
      → ((e : TokenError) × (x.1 ≡ err e)) ⊎ Succeeds x
      → Fails (committed commit t x) ⊎ Succeeds (committed commit t x)
  committed-cases commit (after, err e) how = inl (refl, e, refl)
  committed-cases (some e) (after, ok done) how = inl (refl, db_error e, refl)
  committed-cases none (after, ok done) (inl (e, h)) = cc
  committed-cases none (after, ok done) (inr s) = inr (refl, s.1)

  in_tx-cases :
      Fails (in_tx faults t (exchange faults conflict gen now old row))
      ⊎ Succeeds (in_tx faults t (exchange faults conflict gen now old row))
  in_tx-cases = elim (Option-cases faults.begin_) [
    | inl off ↦ rw off (committed-cases faults.commit _ exchange-cases)
    | inr (e, on) ↦ rw on (inl (refl, db_error e, refl))
  ]

family_for-cases :
    (uu : Uuids) (fresh : Uuid) (text : Text) (family : Uuid)
    → family_for uu fresh text ≡ some family
    → ((text ≡ []) × (family ≡ fresh)) ⊎ (uu.parse text ≡ some family)
family_for-cases uu fresh [] family e = inl (refl, sym (some-injective _ _ e))
family_for-cases uu fresh (b ∷ s) family e = inr e

to_refresh_row-IsRowOf :
    (uu : Uuids) (fresh : Uuid) (token : RefreshToken) (row : RefreshTokenRow)
    → to_refresh_row uu fresh token ≡ ok row
    → IsRowOf uu fresh token row
unfolding to_refresh_row
to_refresh_row-IsRowOf uu fresh token row e = record {
  user = ground arith;
  hash = ground arith;
  expiry = ground arith;
  family = family_for-cases uu fresh token.family_id row.family_id (ground arith);
  live = ground arith;
}

-- Rotate is all or nothing: it fails and leaves the table as it was, whichever of its statements the
-- database refuses, or it succeeds. Then the hash had a row that was neither revoked nor used, every
-- such row is now used at this instant and revoked, and exactly one row was added: live, with the
-- user, hash and expiry of the token that replaces it, in the family that this token names, or in
-- a fresh one if it names none.
pub rotate_atomic :
    (uu : Uuids) (faults : TxFaults) (conflict : Text) (gen fresh : Uuid) (now : Time) (old : Text)
    (next : RefreshToken) (t : Tokens)
    → let x = rotate uu faults conflict gen fresh now old next t in
      ((x.0 ≡ t) × (e : TokenError) × (x.1 ≡ err e))
      ⊎ ((x.1 ≡ ok tt)
          × (row : RefreshTokenRow) × IsRowOf uu fresh next row
          × IsRotated gen now old row t x.0)
unfolding rotate
rotate_atomic uu faults conflict gen fresh now old next t = go (to_refresh_row uu fresh next) refl
  where
    go :
        (r : Result RefreshTokenRow TokenError)
        → to_refresh_row uu fresh next ≡ r
        → let x = rotate_row faults conflict gen now old r t in
          ((x.0 ≡ t) × (e : TokenError) × (x.1 ≡ err e))
          ⊎ ((x.1 ≡ ok tt)
              × (row : RefreshTokenRow) × IsRowOf uu fresh next row
              × IsRotated gen now old row t x.0)
    go (err e) h = inl (refl, e, refl)
    go (ok row) h = elim (in_tx-cases faults conflict gen now old row t) [
      | inl f ↦ inl f
      | inr s ↦ inr (s.0, row, to_refresh_row-IsRowOf uu fresh next row h, s.1)
    ]

-- After the UPDATE of Rotate no row with the hash is unspent.
pub spent-after :
    (now : Time) (old : Text) (t : Tokens)
    → count_by (is_unspent old) (updated (is_unspent old) (retire now) t) ≡ 0
spent-after now old [] = refl
spent-after now old (r ∷ t) = ground (arith, spent-after now old t)

pub unspent-known :
    (now : Time) (old : Text) (t : Tokens)
    → 0 < count_by (is_unspent old) t
    → known_hash old t ≡ true
unspent-known now old [] h = absurd (omega arith)
unspent-known now old (r ∷ t) h = ground (arith, unspent-known now old t)
