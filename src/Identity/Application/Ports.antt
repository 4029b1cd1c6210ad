-- ===== src/Identity/Application/Ports.antt =====
-- modules/identity/application: config.go, dto.go, errors.go, audit.go, notifier.go and service.go, and
-- the ports of domain/repository.go and domain/service.go that the use cases call. `W` is the state
-- of the world that the calls change. The store of refresh tokens is the one of Identity.Tokens when
-- its fields answer as `OverTokens` says.
use kopiochi.Prelude.{ℕ, ℤ, Bool, ltb, if◌then◌else◌, ◌+◌, Option, List, Text, [], ◌∷◌, ◌/◌, ◌%◌}
use kopiochi.Notification.Domain.Types.{Result, ok, err}
use kopiochi.Identity.Domain.{Time, Duration, Uuids, User, RefreshToken}

-- Config
pub record Config : Type 0 where
  pub access_token_ttl : Duration
  pub refresh_token_ttl : Duration
  pub max_failed_attempts : ℤ
  pub lock_duration : Duration
  pub client_id : Text
  pub mfa_temporary_ttl : Duration

-- Class
pub data Class : Type 0 where
  access mfa id : Class
  other_class : Text → Class

-- Claims
pub record Claims : Type 0 where
  pub subject : Text
  pub email : Text
  pub name : Text
  pub roles : List Text
  pub permissions : List Text
  pub scope : Text
  pub class : Class
  pub issued_at : ℤ
  pub expires_at : ℤ

-- LoginRequest
pub record LoginRequest : Type 0 where
  pub username : Text
  pub password : Text

-- TokenResponse
pub record TokenResponse : Type 0 where
  pub access_token : Text
  pub token_type : Text
  pub expires_in : ℤ
  pub refresh_token : Text
  pub id_token : Text
  pub scope : Text

-- UserDTO
pub record UserDto : Type 0 where
  pub id : Text
  pub email : Text
  pub name : Text
  pub roles : List Text
  pub permissions : List Text

-- MfaVerifyRequest
pub record MfaVerifyRequest : Type 0 where
  pub code : Text
  pub backup_code : Text

-- MfaSetupResponse
pub record MfaSetupResponse : Type 0 where
  pub secret : Text
  pub qr_code_url : Text

-- The fixed reasons of LoginFailed.
pub data Reason : Type 0 where
  bad_password unknown_user account_locked_reason : Reason

-- The calls of Auditor, as the events that they record.
pub data AuditEvent : Type 0 where
  login_succeeded : Text → AuditEvent
  login_failed : Text → Reason → AuditEvent
  account_locked_event : Text → AuditEvent
  logout_succeeded : Text → AuditEvent
  refresh_reuse_detected : Text → Text → ℕ → Option Text → AuditEvent

-- The calls of SecurityNotifier.
pub data Notice : Type 0 where
  account_locked_notice : Text → Time → Notice
  mfa_enabled_notice : Text → Time → Notice

-- The error of a port: whether errors.Is finds ErrRefreshTokenAlreadyUsed in it.
pub record Fault : Type 0 where
  pub already_used : Bool
  pub text : Text

-- What the use cases report: the sentinels of errors.go, MFAError, and the errors that wrap a
-- port's or pass it on.
pub data AuthError : Type 0 where
  invalid_credentials account_locked invalid_mfa_token invalid_mfa_code : AuthError
  mfa_not_started refresh_token_invalid : AuthError
  mfa_required : Text → UserDto → AuthError
  user_save mfa_token access_token random_failed store_refresh : Fault → AuthError
  rotate_failed hash_backup store_backup passed_on : Fault → AuthError

-- The collaborators of Service. HashToken is SHA-256 in hexadecimal, and `seconds` is
-- int(d.Seconds()), the one use of floats.
pub record Ports (W : Type 0) : Type 1 where
  pub uuids : Uuids
  pub now : W → W × Time
  pub read_random : W → ℕ → W × Result (List ℕ) Fault
  pub hash_token : Text → Text
  pub seconds : Duration → ℤ
  pub find_by_username : W → Text → W × Result User Fault
  pub find_by_id : W → Text → W × Result User Fault
  pub save_user : W → User → W × Result (Unit {0}) Fault
  pub verify_password : Text → Text → Bool
  pub issue_access_token : W → User → Duration → W × Result Text Fault
  pub issue_id_token : W → User → Text → W × Result Text Fault
  pub issue_mfa_token : W → User → W × Result Text Fault
  pub validate : W → Text → Class → W × Result Claims Fault
  pub store : W → RefreshToken → W × Result (Unit {0}) Fault
  pub find_valid : W → Text → W × Result (Option RefreshToken) Fault
  pub find_any : W → Text → W × Result (Option RefreshToken) Fault
  pub rotate : W → Text → RefreshToken → W × Result (Unit {0}) Fault
  pub revoke_family : W → Text → W × Result ℕ Fault
  pub revoke_all_for_user : W → Text → W × Result (Unit {0}) Fault
  pub generate_secret : W → Text → W × Result (Text × Text) Fault
  pub validate_code : W → Text → Text → W × Bool
  pub bcrypt : W → Text → W × Result Text Fault
  pub store_backup_codes : W → Text → List Text → W × Result (Unit {0}) Fault
  pub find_and_use_backup_code : W → Text → Text → W × Result Bool Fault
  pub audit : W → AuditEvent → W
  pub notify : W → Notice → W

-- A digit of hex.EncodeToString.
abbrev digit : ℕ → ℕ
digit n = if ltb n 10 then 48 + n else 87 + n

-- hex.EncodeToString
abbrev pub encode_hex : List ℕ → Text
encode_hex [] = []
encode_hex (b ∷ bs) = digit (b / 16) ∷ digit (b % 16) ∷ encode_hex bs

module _ {W : Type 0} (ports : Ports W) where
  -- An answer of a use case.
  abbrev pub Answer : Type 0 → Type 0
  Answer A = W × Result A AuthError

  abbrev hex_of : W × Result (List ℕ) Fault → W × Result Text Fault
  hex_of (w, err e) = (w, err e)
  hex_of (w, ok bytes) = (w, ok (encode_hex bytes))

  -- generateRandomToken
  unfoldable pub generate_random_token : W → W × Result Text Fault
  generate_random_token w = hex_of (ports.read_random w 32)
