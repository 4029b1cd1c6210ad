-- ===== src/Profiles.antt =====
-- modules/user: the profile of an identity, keyed by its id. The table is a list with one row for each
-- id; what the database answers a statement, if it fails, is the argument `link`.
pub mod Ensuring
mod Examples
use kopiochi.Prelude.{
  ℕ, ◌==◌, Bool, true, false, Option, none, some, List, [], ◌∷◌, Text, codes, if◌then◌else◌,
}
use kopiochi.Notification.Domain.Types.{Uuid, Time, Result, ok, err}
use kopiochi.Platform.Authn.{Context, Principal, from_context}
use kopiochi.Platform.Problem.{Route, Response, json, write_problem, unauthorized}
use kopiochi.Platform.DbErrors.{Error, is_no_rows, translate, translate_error}

-- User, UserDBModel and UserResponse, which have the same fields.
pub record User : Type 0 where
  pub id : Uuid
  pub created_at : Time
  pub updated_at : Time

abbrev pub Table : Type 0
Table = List User

-- ErrUserNotFound, or an error of the database.
pub data UserError : Type 0 where
  user_not_found : UserError
  db_failed : Error → UserError

-- The row with an id.
unfoldable pub find_user : Uuid → Table → Option User
find_user id [] = none
find_user id (u ∷ t) = let rest = find_user id t in if u.id == id then some u else rest

-- ON CONFLICT (id) DO NOTHING
abbrev pub insert_new : Option User → User → Table → Table
insert_new none u t = u ∷ t
insert_new (some stored) u t = t

abbrev pub failure : Option Error → Result (Unit {0}) UserError
failure none = ok tt
failure (some e) = err (db_failed e)

-- EnsureExists, at the database's now().
unfoldable pub ensure_exists :
    Option Error → Time → Uuid → Table → Table × Result (Unit {0}) UserError
unfolding find_user
ensure_exists (some e) now id t = (t, failure (translate (some e)))
ensure_exists none now id t = (
  insert_new (find_user id t) (record { id = id; created_at = now; updated_at = now }) t,
  failure (translate none),
)

abbrev pub scan_user : Option User → Result User UserError
scan_user none = err user_not_found
scan_user (some u) = ok u

-- GetByID
unfoldable pub get_by_id : Option Error → Uuid → Table → Result User UserError
unfolding find_user
get_by_id (some e) id t =
    if is_no_rows e then err user_not_found else err (db_failed (translate_error e))
get_by_id none id t = scan_user (find_user id t)

-- GetOwnProfile and EnsureOwnProfile of the service; the second has two statements.
abbrev pub get_own_profile : Option Error → Uuid → Table → Result User UserError
get_own_profile link caller t = get_by_id link caller t

abbrev pub after_ensure :
    Option Error → Uuid → Table × Result (Unit {0}) UserError → Table × Result User UserError
after_ensure link caller (t, err e) = (t, err e)
after_ensure link caller (t, ok done) = (t, get_own_profile link caller t)

abbrev pub ensure_own_profile :
    Option Error → Option Error → Time → Uuid → Table → Table × Result User UserError
ensure_own_profile link link' now caller t =
    after_ensure link' caller (ensure_exists link now caller t)

module _ (parse_uuid : Text → Option Uuid) (r : Route) where
  -- caller
  abbrev pub subject_id : Option Principal → Option Uuid
  subject_id none = none
  subject_id (some p) = parse_uuid p.subject

  abbrev pub caller : Context → Option Uuid
  caller ctx = subject_id (from_context ctx)

  abbrev pub ensured : Table × Result User UserError → Table × Response User
  ensured (t, err e) = (
    t,
    write_problem r 500 (codes "internal_error") (codes "Internal Server Error")
        (codes "The profile could not be created."),
  )
  ensured (t, ok u) = (t, json 200 u)

  abbrev pub ensure_as :
      Option Error → Option Error → Time → Option Uuid → Table → Table × Response User
  ensure_as link link' now none t = (t, unauthorized r)
  ensure_as link link' now (some id) t = ensured (ensure_own_profile link link' now id t)

  -- The handler EnsureOwnProfile.
  unfoldable pub ensure_profile :
      Option Error → Option Error → Time → Context → Table → Table × Response User
  unfolding ensure_exists get_by_id
  ensure_profile link link' now ctx t = ensure_as link link' now (caller ctx) t

  abbrev pub shown : Result User UserError → Response User
  shown (ok u) = json 200 u
  shown (err user_not_found) =
      write_problem r 404 (codes "not_found") (codes "Not Found") (codes "You have no profile yet.")
  shown (err (db_failed e)) =
      write_problem r 500 (codes "internal_error") (codes "Internal Server Error")
        (codes "The profile could not be retrieved.")

  abbrev pub get_as : Option Error → Option Uuid → Table → Response User
  get_as link none t = unauthorized r
  get_as link (some id) t = shown (get_own_profile link id t)

  -- The handler GetOwnProfile.
  unfoldable pub get_profile : Option Error → Context → Table → Response User
  unfolding get_by_id
  get_profile link ctx t = get_as link (caller ctx) t
