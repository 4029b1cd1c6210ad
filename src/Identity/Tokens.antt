-- ===== src/Identity/Tokens.antt =====
-- modules/identity/infrastructure/persistence: RefreshTokenRow of models/auth_models.go and
-- repository/refresh_token_store.go, over the table auth_refresh_tokens as a list of rows (Rotate is in Exchange). `link` is an error that the database answers with instead of doing
-- what it is asked, `gen` the id that the column's default makes, and `now` the database's clock.
pub mod Exchange
pub mod Rotation
pub mod Lineage
pub mod Sessions
pub mod Invariant
pub mod Revocation
pub mod Once
use kopiochi.Prelude.{
  ℕ, ℤ, pos, ◌≡◌, Bool, true, false, not, ◌&&◌, Option, none, some, List, [], ◌∷◌, Text, text_eq,
  ltb_ℤ, ◌==◌, if◌then◌else◌, count_by, updated, find_first,
}
use kopiochi.Notification.Domain.Types.{Result, ok, err}
use kopiochi.Identity.Domain.{Uuid, Time, Uuids, RefreshToken}

-- RefreshTokenRow, less created_at, which nothing reads.
pub record RefreshTokenRow : Type 0 where
  pub id : Uuid
  pub user_id : Uuid
  pub token_hash : Text
  pub expires_at : Time
  pub revoked : Bool
  pub family_id : Uuid
  pub used_at : Option Time
  pub reuse_detected_at : Option Time

abbrev pub Tokens : Type 0
Tokens = List RefreshTokenRow

pub data TokenError : Type 0 where
  bad_user_id bad_family_id : TokenError
  invalid_token : TokenError  -- errors.New("invalid token")
  not_found : TokenError  -- db.ErrNotFound
  already_used : TokenError  -- domain.ErrRefreshTokenAlreadyUsed
  db_error : Text → TokenError

abbrev pub is_set : Option Time → Bool
is_set none = false
is_set (some t) = true

-- fromRefreshRow
unfoldable pub from_refresh_row : Uuids → RefreshTokenRow → RefreshToken
from_refresh_row uu r = record {
  user_id = uu.to_text r.user_id;
  token_hash = r.token_hash;
  expires_at = r.expires_at;
  family_id = uu.to_text r.family_id;
  used = is_set r.used_at;
  revoked = r.revoked;
}

-- The family of a new row: `fresh` is uuid.New(), and an empty FamilyID starts a family.
abbrev pub family_for : Uuids → Uuid → Text → Option Uuid
family_for uu fresh [] = some fresh
family_for uu fresh (b ∷ s) = uu.parse (b ∷ s)

abbrev row_for : RefreshToken → Uuid → Option Uuid → Result RefreshTokenRow TokenError
row_for t user none = err bad_family_id
row_for t user (some family) = ok (record {
  id = 0;
  user_id = user;
  token_hash = t.token_hash;
  expires_at = t.expires_at;
  revoked = false;
  family_id = family;
  used_at = none;
  reuse_detected_at = none;
})

abbrev with_user : Uuids → Uuid → RefreshToken → Option Uuid → Result RefreshTokenRow TokenError
with_user uu fresh t none = err bad_user_id
with_user uu fresh t (some user) = row_for t user (family_for uu fresh t.family_id)

-- toRefreshRow
unfoldable pub to_refresh_row : Uuids → Uuid → RefreshToken → Result RefreshTokenRow TokenError
to_refresh_row uu fresh t = with_user uu fresh t (uu.parse t.user_id)

abbrev pub has_hash : Text → RefreshTokenRow → Bool
has_hash h r = text_eq r.token_hash h

abbrev pub known_hash : Text → Tokens → Bool
known_hash h [] = false
known_hash h (r ∷ t) = let rest = known_hash h t in if has_hash h r then true else rest

-- INSERT, under the unique index on token_hash; `conflict` is its refusal.
unfoldable pub insert :
    Option Text → Text → Uuid → RefreshTokenRow → Tokens → Tokens × Result (Unit {0}) TokenError
insert (some e) conflict gen row t = (t, err (db_error e))
insert none conflict gen row t =
    if known_hash row.token_hash t
    then (t, err (db_error conflict))
    else (record row { id = gen } ∷ t, ok tt)

abbrev pub store_row :
    Option Text
    → Text
    → Uuid
    → Result RefreshTokenRow TokenError
    → Tokens
    → Tokens × Result (Unit {0}) TokenError
store_row link conflict gen (err e) t = (t, err e)
store_row link conflict gen (ok row) t = insert link conflict gen row t

-- Store
unfoldable pub store :
    Uuids
    → Option Text
    → Text
    → Uuid
    → Uuid
    → RefreshToken
    → Tokens
    → Tokens × Result (Unit {0}) TokenError
unfolding insert to_refresh_row
store uu link conflict gen fresh token t =
    store_row link conflict gen (to_refresh_row uu fresh token) t

abbrev pub is_unset : Option Time → Bool
is_unset none = true
is_unset (some t) = false

-- WHERE token_hash = ? AND revoked = false AND used_at IS NULL
abbrev pub is_unspent : Text → RefreshTokenRow → Bool
is_unspent h r = has_hash h r && (not r.revoked && is_unset r.used_at)

abbrev pub scan : Uuids → TokenError → Option RefreshTokenRow → Result RefreshToken TokenError
scan uu missing none = err missing
scan uu missing (some r) = ok (from_refresh_row uu r)

-- FindValid
unfoldable pub find_valid :
    Uuids → Option Text → Text → Time → Tokens → Result RefreshToken TokenError
unfolding from_refresh_row
find_valid uu (some e) h now t = err (db_error e)
find_valid uu none h now t =
    scan uu invalid_token (find_first (λ r. is_unspent h r && ltb_ℤ now r.expires_at) t)

-- FindAny
unfoldable pub find_any : Uuids → Option Text → Text → Tokens → Result RefreshToken TokenError
unfolding from_refresh_row
find_any uu (some e) h t = err (db_error e)
find_any uu none h t = scan uu not_found (find_first (has_hash h) t)

-- WHERE family_id = ? AND revoked = false
abbrev pub is_live : Uuid → RefreshTokenRow → Bool
is_live family r = r.family_id == family && not r.revoked

-- SET revoked = true, reuse_detected_at = now()
abbrev pub mark_reuse : Time → RefreshTokenRow → RefreshTokenRow
mark_reuse now r = record r { revoked = true; reuse_detected_at = some now }

abbrev pub revoke_live : Option Text → Time → Option Uuid → Tokens → Tokens × Result ℕ TokenError
revoke_live link now none t = (t, err bad_family_id)
revoke_live (some e) now (some family) t = (t, err (db_error e))
revoke_live none now (some family) t =
    (updated (is_live family) (mark_reuse now) t, ok (count_by (is_live family) t))

-- RevokeFamily
unfoldable pub revoke_family :
    Uuids → Option Text → Time → Text → Tokens → Tokens × Result ℕ TokenError
revoke_family uu link now family_id t = revoke_live link now (uu.parse family_id) t

abbrev pub revoke_of : Option Text → Option Uuid → Tokens → Tokens × Result (Unit {0}) TokenError
revoke_of link none t = (t, err bad_user_id)
revoke_of (some e) (some user) t = (t, err (db_error e))
revoke_of none (some user) t =
    (updated (λ r. r.user_id == user) (λ r. record r { revoked = true }) t, ok tt)

-- RevokeAllForUser
unfoldable pub revoke_all_for_user :
    Uuids → Option Text → Text → Tokens → Tokens × Result (Unit {0}) TokenError
revoke_all_for_user uu link user_id t = revoke_of link (uu.parse user_id) t
