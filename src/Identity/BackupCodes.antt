-- ===== src/Identity/BackupCodes.antt =====
-- modules/identity/infrastructure/persistence: MfaBackupCodeRow of models/auth_models.go and
-- repository/mfa_store.go, over the table auth_mfa_backup_codes as a list of rows. `verify` is the
-- password hasher's Verify, and `gen` the id that the column's default makes for the i-th row of
-- an INSERT. The SELECT has no ORDER BY: the rows are looked at in the order of the list.
pub mod Spending
use kopiochi.Prelude.{
  ℕ, zero, suc, Bool, true, false, not, ◌&&◌, Option, none, some, List, [], ◌∷◌, ◌++◌, Text, ◌==◌,
  if◌then◌else◌, updated, where_, find_first,
}
use kopiochi.Notification.Domain.Types.{Result, ok, err}
use kopiochi.Identity.Domain.{Uuid, Uuids}

-- MfaBackupCodeRow, less created_at, which nothing reads.
pub record BackupCodeRow : Type 0 where
  pub id : Uuid
  pub user_id : Uuid
  pub code_hash : Text
  pub used : Bool

abbrev pub BackupCodes : Type 0
BackupCodes = List BackupCodeRow

pub data CodeError : Type 0 where
  bad_user : CodeError
  failed : Text → CodeError

-- The rows of one INSERT, in the order of the hashes.
unfoldable pub new_rows : (ℕ → Uuid) → ℕ → Uuid → List Text → BackupCodes
new_rows gen i user [] = []
new_rows gen i user (hash ∷ hashes) =
    record { id = gen i; user_id = user; code_hash = hash; used = false }
    ∷ new_rows gen (suc i) user hashes

abbrev pub insert_for :
    Option Text
    → (ℕ → Uuid)
    → Option Uuid
    → List Text
    → BackupCodes
    → BackupCodes × Result (Unit {0}) CodeError
insert_for link gen none hashes t = (t, err bad_user)
insert_for (some e) gen (some user) hashes t = (t, err (failed e))
insert_for none gen (some user) hashes t = (t ++ new_rows gen 0 user hashes, ok tt)

-- StoreBackupCodes
unfoldable pub store_backup_codes :
    Uuids
    → Option Text
    → (ℕ → Uuid)
    → Text
    → List Text
    → BackupCodes
    → BackupCodes × Result (Unit {0}) CodeError
unfolding new_rows
store_backup_codes uu link gen user_id hashes t = insert_for link gen (uu.parse user_id) hashes t

-- WHERE user_id = ? AND used = false
abbrev pub is_unused : Uuid → BackupCodeRow → Bool
is_unused user r = r.user_id == user && not r.used

-- SET used = true, WherePK
abbrev pub spend : Uuid → BackupCodes → BackupCodes
spend id t = updated (λ r. r.id == id) (λ r. record r { used = true }) t

abbrev pub spend_found :
    Option Text → Option BackupCodeRow → BackupCodes → BackupCodes × Result Bool CodeError
spend_found link none t = (t, ok false)
spend_found (some e) (some c) t = (t, err (failed e))
spend_found none (some c) t = (spend c.id t, ok true)

abbrev pub search_for :
    (Text → Text → Bool)
    → Option Text
    → Option Text
    → Option Uuid
    → Text
    → BackupCodes
    → BackupCodes × Result Bool CodeError
search_for verify select update none plain t = (t, err bad_user)
search_for verify (some e) update (some user) plain t = (t, err (failed e))
search_for verify none update (some user) plain t =
    spend_found update (find_first (λ c. verify plain c.code_hash) (where_ (is_unused user) t)) t

-- FindAndUseBackupCode; `select` and `update` are what the database answers to the two statements.
unfoldable pub find_and_use_backup_code :
    Uuids
    → (Text → Text → Bool)
    → Option Text
    → Option Text
    → Text
    → Text
    → BackupCodes
    → BackupCodes × Result Bool CodeError
find_and_use_backup_code uu verify select update user_id plain t =
    search_for verify select update (uu.parse user_id) plain t
