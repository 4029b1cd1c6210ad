-- ===== src/Identity/Tokens/Exchange.antt =====
-- Rotate of modules/identity/infrastructure/persistence/repository/refresh_token_store.go, with db.InTx
-- of internal/db/tx.go.
use kopiochi.Prelude.{true, Option, none, some, Text, ◌==◌, if◌then◌else◌, count_by, updated}
use kopiochi.Notification.Domain.Types.{Result, ok, err}
use kopiochi.Identity.Domain.{Uuid, Time, Uuids, RefreshToken}
use kopiochi.Identity.Tokens.{
  RefreshTokenRow, TokenError, Tokens, already_used, db_error, insert, is_unspent, to_refresh_row,
}

-- What the database answers to BEGIN, to the UPDATE and its row count, to the INSERT and to COMMIT.
pub record TxFaults : Type 0 where
  pub begin_ : Option Text
  pub update : Option Text
  pub insert : Option Text
  pub commit : Option Text

abbrev pub committed :
    Option Text
    → Tokens
    → Tokens × Result (Unit {0}) TokenError
    → Tokens × Result (Unit {0}) TokenError
committed commit before (after, err e) = (before, err e)
committed (some e) before (after, ok done) = (before, err (db_error e))
committed none before (after, ok done) = (after, ok tt)

-- db.InTx: what `body` wrote is kept if it succeeds and the commit does.
abbrev pub in_tx :
    TxFaults
    → Tokens
    → (Tokens → Tokens × Result (Unit {0}) TokenError)
    → Tokens × Result (Unit {0}) TokenError
in_tx faults t body = elim faults.begin_ [
  | some e ↦ (t, err (db_error e))
  | none ↦ committed faults.commit t (body t)
]

-- SET used_at = now(), revoked = true
abbrev pub retire : Time → RefreshTokenRow → RefreshTokenRow
retire now r = record r { used_at = some now; revoked = true }

-- The function that Rotate gives to InTx.
abbrev pub exchange :
    TxFaults
    → Text
    → Uuid
    → Time
    → Text
    → RefreshTokenRow
    → Tokens
    → Tokens × Result (Unit {0}) TokenError
exchange faults conflict gen now old next t = elim faults.update [
  | some e ↦ (t, err (db_error e))
  | none ↦
      if count_by (is_unspent old) t == 0
      then (t, err already_used)
      else insert faults.insert conflict gen next (updated (is_unspent old) (retire now) t)
]

abbrev pub rotate_row :
    TxFaults
    → Text
    → Uuid
    → Time
    → Text
    → Result RefreshTokenRow TokenError
    → Tokens
    → Tokens × Result (Unit {0}) TokenError
rotate_row faults conflict gen now old (err e) t = (t, err e)
rotate_row faults conflict gen now old (ok next) t =
    in_tx faults t (exchange faults conflict gen now old next)

-- Rotate
unfoldable pub rotate :
    Uuids
    → TxFaults
    → Text
    → Uuid
    → Uuid
    → Time
    → Text
    → RefreshToken
    → Tokens
    → Tokens × Result (Unit {0}) TokenError
unfolding insert to_refresh_row
rotate uu faults conflict gen fresh now old next t =
    rotate_row faults conflict gen now old (to_refresh_row uu fresh next) t
