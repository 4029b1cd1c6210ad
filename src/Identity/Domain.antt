-- ===== src/Identity/Domain.antt =====
-- modules/identity/domain: user.go, refresh_token.go, service.go and passkey_credential.go. Every
-- reading of the clock is an argument. google/uuid is a parameter: `Uuids` names what the module
-- uses of it.
pub mod Lockout
use kopiochi.Prelude.{
  ℕ, ℤ, pos, ◌≡◌, ◌≢◌, ◌+ℤ◌, Bool, true, false, not, ◌&&◌, Option, none, some, List, [], Text, inc,
  leb_ℤ, ltb_ℤ, if◌then◌else◌,
}

abbrev pub Uuid : Type 0
Uuid = ℕ

abbrev pub Time : Type 0
Time = ℤ

abbrev pub Duration : Type 0
Duration = ℤ

-- UUID.String and uuid.Parse. The canonical text of a uuid parses back, and is not empty.
pub record Uuids : Type 0 where
  pub to_text : Uuid → Text
  pub parse : Text → Option Uuid
  pub parse-to_text : (u : Uuid) → parse (to_text u) ≡ some u
  pub to_text_ne : (u : Uuid) → to_text u ≢ []

-- User
pub record User : Type 0 where
  pub id : Uuid
  pub username : Text
  pub email : Text
  pub name : Text
  pub roles : List Text
  pub permissions : List Text
  pub password_hash : Text
  pub mfa_enabled : Bool
  pub mfa_secret : Text
  pub failed_login_attempts : ℤ
  pub locked_until : Option Time

-- IsLocked
abbrev locked_at : Time → Option Time → Bool
locked_at now none = false
locked_at now (some until) = ltb_ℤ now until

unfoldable pub is_locked : User → Time → Bool
is_locked u now = locked_at now u.locked_until

-- RecordFailedLogin
unfoldable pub record_failed_login : User → ℤ → Duration → Time → User
record_failed_login u max_attempts lock_duration now =
    let v : User = record u { failed_login_attempts = inc u.failed_login_attempts } in
    if leb_ℤ max_attempts v.failed_login_attempts
    then record v { locked_until = some (now +ℤ lock_duration) }
    else v

-- ResetFailedLogins
unfoldable pub reset_failed_logins : User → User
reset_failed_logins u = record u { failed_login_attempts = pos 0; locked_until = none }

-- RefreshToken
pub record RefreshToken : Type 0 where
  pub user_id : Text
  pub token_hash : Text
  pub expires_at : Time
  pub family_id : Text
  pub used : Bool
  pub revoked : Bool

-- Expired: `!t.ExpiresAt.After(now)`
unfoldable pub expired : RefreshToken → Time → Bool
expired t now = not (ltb_ℤ now t.expires_at)

-- Usable
unfoldable pub usable : RefreshToken → Time → Bool
unfolding expired
usable t now = not t.revoked && (not t.used && not (expired t now))
