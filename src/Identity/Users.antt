-- ===== src/Identity/Users.antt =====
-- modules/identity/infrastructure/persistence: BunUser of models/auth_models.go and
-- repository/user_repo.go, over the table auth_users as a list of rows. `lower` is the database's,
-- `column` what a timestamptz column keeps of an
-- instant (microseconds), `link` an error that it answers with, and `conflict` its refusal of a second row with one name or
-- address under the indexes of migrations/00007_case_insensitive_identifiers.sql.
pub mod Saving
use kopiochi.Prelude.{
  ℕ, ℤ, Bool, true, false, not, ◌&&◌, ◌||◌, Option, none, some, List, [], ◌∷◌, Text, text_eq, ◌==◌,
  if◌then◌else◌, find_first,
}
use kopiochi.Notification.Domain.Types.{Result, ok, err}
use kopiochi.Identity.Domain.{Uuid, Time, Uuids, User}

-- BunUser, less created_at and updated_at, which nothing reads.
pub record UserRow : Type 0 where
  pub id : Uuid
  pub username : Text
  pub email : Text
  pub name : Text
  pub roles : List Text
  pub permissions : List Text
  pub password_hash : Option Text
  pub mfa_enabled : Bool
  pub mfa_secret : Option Text
  pub failed_login_attempts : ℤ
  pub locked_until : Option Time

abbrev pub Users : Type 0
Users = List UserRow

pub data UserError : Type 0 where
  bad_id missing : UserError  -- uuid.Parse failed; db.ErrNotFound
  refused : Text → UserError

-- deref
abbrev pub deref : Option Text → Text
deref none = []
deref (some s) = s

-- nilIfEmpty
abbrev pub nil_if_empty : Text → Option Text
nil_if_empty [] = none
nil_if_empty (b ∷ s) = some (b ∷ s)

-- fromDomainUser
unfoldable pub from_domain_user : User → UserRow
from_domain_user u = record {
  id = u.id;
  username = u.username;
  email = u.email;
  name = u.name;
  roles = u.roles;
  permissions = u.permissions;
  password_hash = nil_if_empty u.password_hash;
  mfa_enabled = u.mfa_enabled;
  mfa_secret = nil_if_empty u.mfa_secret;
  failed_login_attempts = u.failed_login_attempts;
  locked_until = u.locked_until;
}

-- toDomainUser
unfoldable pub to_domain_user : UserRow → User
to_domain_user r = record {
  id = r.id;
  username = r.username;
  email = r.email;
  name = r.name;
  roles = r.roles;
  permissions = r.permissions;
  password_hash = deref r.password_hash;
  mfa_enabled = r.mfa_enabled;
  mfa_secret = deref r.mfa_secret;
  failed_login_attempts = r.failed_login_attempts;
  locked_until = r.locked_until;
}

abbrev pub scan_user : Option UserRow → Result User UserError
scan_user none = err missing
scan_user (some r) = ok (to_domain_user r)

abbrev pub select_user : Option Text → (UserRow → Bool) → Users → Result User UserError
select_user (some e) q t = err (refused e)
select_user none q t = scan_user (find_first q t)

abbrev pub find_parsed : Option Text → Option Uuid → Users → Result User UserError
find_parsed link none t = err bad_id
find_parsed link (some id) t = select_user link (λ r. r.id == id) t

-- FindByID
unfoldable pub find_by_id : Uuids → Option Text → Text → Users → Result User UserError
unfolding to_domain_user
find_by_id uu link id t = find_parsed link (uu.parse id) t

-- FindByEmail
unfoldable pub find_by_email : (Text → Text) → Option Text → Text → Users → Result User UserError
unfolding to_domain_user
find_by_email lower link email t = select_user link (λ r. text_eq (lower r.email) (lower email)) t

-- FindByUsername
unfoldable pub find_by_username : (Text → Text) → Option Text → Text → Users → Result User UserError
unfolding to_domain_user
find_by_username lower link name t =
    select_user link (λ r. text_eq (lower r.username) (lower name)) t

-- Does another row have the name or the address?
abbrev pub clashes : (Text → Text) → UserRow → Users → Bool
clashes lower row [] = false
clashes lower row (r ∷ t) =
    not (r.id == row.id)
      && (text_eq (lower r.username) (lower row.username)
          || text_eq (lower r.email) (lower row.email))
    || clashes lower row t

-- INSERT ... ON CONFLICT (id) DO UPDATE, which writes every column.
unfoldable pub write_user : UserRow → Users → Users
write_user row [] = row ∷ []
write_user row (r ∷ t) = let rest = write_user row t in if r.id == row.id then row ∷ t else r ∷ rest

-- A zero id is left to the column's default, `gen`; the other defaults are the zero values.
abbrev pub with_default : Uuid → UserRow → UserRow
with_default gen row = if row.id == 0 then record row { id = gen } else row

-- The row as the columns keep it: locked_until is a timestamptz, which keeps `column` of an instant.
abbrev pub kept_lock : (Time → Time) → Option Time → Option Time
kept_lock column none = none
kept_lock column (some t) = some (column t)

abbrev pub stored_user : (Time → Time) → UserRow → UserRow
stored_user column row = record row { locked_until = kept_lock column row.locked_until }

abbrev pub save_row :
    (Text → Text) → Option Text → Text → UserRow → Users → Users × Result (Unit {0}) UserError
save_row lower (some e) conflict row t = (t, err (refused e))
save_row lower none conflict row t =
    if clashes lower row t then (t, err (refused conflict)) else (write_user row t, ok tt)

-- Save
unfoldable pub save_user :
    (Text → Text)
    → (Time → Time)
    → Option Text
    → Text
    → Uuid
    → User
    → Users
    → Users × Result (Unit {0}) UserError
unfolding from_domain_user write_user
save_user lower column link conflict gen u t =
    save_row lower link conflict (stored_user column (with_default gen (from_domain_user u))) t
