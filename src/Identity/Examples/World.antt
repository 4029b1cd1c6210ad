-- ===== src/Identity/Examples/World.antt =====
-- The ports of modules/identity/application over a world of one user and a table of refresh tokens.
use mathlib.Core.Path.{refl}
use kopiochi.Prelude.{
  ℕ, ◌≢◌, suc, pos, Bool, true, false, Option, none, some, [], ◌∷◌, Text, codes, text_eq,
  if◌then◌else◌,
}
use kopiochi.Notification.Domain.Types.{Result, ok, err}
use kopiochi.Identity.Domain.{Uuid, Time, Uuids, User}
use kopiochi.Identity.Tokens.{
  RefreshTokenRow, Tokens, TokenError, store, find_valid, find_any, revoke_family,
  revoke_all_for_user,
}
use kopiochi.Identity.Tokens.Exchange.{rotate}
use kopiochi.Identity.Tokens.Rotation.{no_faults}
use kopiochi.Identity.Application.Ports.{Config, Class, Claims, Fault, Ports}
use kopiochi.Identity.Application.Replaying.{lift_token, OverTokens}
use kopiochi.Identity.Application.Mfa.{validate_code}

-- A uuid's text is its number, as one symbol.
abbrev parse_one : Text → Option Uuid
parse_one (u ∷ []) = some u
parse_one _ = none

pub text_ne : (u : Uuid) → ◌≢◌ {A = Text} (u ∷ []) []
text_ne u e = cc

abbrev pub plain_uuids : Uuids
plain_uuids = record {
  to_text = λ u. u ∷ [];
  parse = parse_one;
  parse-to_text = λ u. refl;
  to_text_ne = text_ne;
}

abbrev pub ann : User
ann = record {
  id = 42;
  username = codes "ann";
  email = codes "ann@example.org";
  name = codes "Ann";
  roles = [];
  permissions = [];
  password_hash = codes "secret";
  mfa_enabled = false;
  mfa_secret = codes "S";
  failed_login_attempts = pos 2;
  locked_until = some (pos 50);
}

-- Token "a" of family 9 was exchanged for token "b".
abbrev pub token_row : Text → Bool → Option Time → RefreshTokenRow
token_row hash revoked used = record {
  id = 1;
  user_id = 42;
  token_hash = hash;
  expires_at = pos 9000;
  revoked = revoked;
  family_id = 9;
  used_at = used;
  reuse_detected_at = none;
}

abbrev pub chain : Tokens
chain = token_row (codes "b") false none ∷ token_row (codes "a") true (some (pos 20)) ∷ []

pub record World : Type 0 where
  pub user : User
  pub tokens : Tokens
  pub clock : ℕ

abbrev pub world : World
world = record { user = ann; tokens = chain; clock = 100 }

abbrev pub fault : Fault
fault = record { already_used = false; text = codes "db" }

abbrev answered {ℓ} : {A : Type ℓ} → Result A TokenError → Result A Fault
answered (ok a) = ok a
answered (err e) = err fault

abbrev some_claims : Class → Claims
some_claims c = record {
  subject = 42 ∷ [];
  email = [];
  name = [];
  roles = [];
  permissions = [];
  scope = [];
  class = c;
  issued_at = pos 0;
  expires_at = pos 0;
}

abbrev pub ports : Ports World
ports = record {
  uuids = plain_uuids;
  now = λ w. (record w { clock = suc w.clock }, pos w.clock);
  read_random = λ w n. (w, ok (7 ∷ []));
  hash_token = λ s. s;
  seconds = λ d. d;
  find_by_username = λ w name. (w, (if text_eq name w.user.username then ok w.user else err fault));
  find_by_id = λ w id. (w, ok w.user);
  save_user = λ w u. (record w { user = u }, ok tt);
  verify_password = text_eq;
  issue_access_token = λ w u ttl. (w, ok (codes "access"));
  issue_id_token = λ w u client. (w, err fault);
  issue_mfa_token = λ w u. (w, ok (codes "mfa"));
  validate = λ w token want.
      (w, (if text_eq token (codes "mfa") then ok (some_claims want) else err fault));
  store = λ w token.
      let (t, r) = store plain_uuids none (codes "23505") 3 w.clock token w.tokens in
      (record w { tokens = t }, answered r);
  find_valid = λ w h. (w, lift_token (find_valid plain_uuids none h (pos w.clock) w.tokens));
  find_any = λ w h. (w, lift_token (find_any plain_uuids none h w.tokens));
  rotate = λ w h next.
      let (t, r) =
        rotate plain_uuids no_faults (codes "23505") 3 w.clock (pos w.clock) h next w.tokens in
      (record w { tokens = t }, answered r);
  revoke_family = λ w f.
      let (t, r) = revoke_family plain_uuids none (pos w.clock) f w.tokens in
      (record w { tokens = t }, answered r);
  revoke_all_for_user = λ w user.
      let (t, r) = revoke_all_for_user plain_uuids none user w.tokens in
      (record w { tokens = t }, answered r);
  generate_secret = λ w email. (w, ok (codes "T", codes "otpauth"));
  validate_code = λ w secret code. (w, validate_code (λ c s. text_eq c (codes "123")) secret code);
  bcrypt = λ w code. (w, ok code);
  store_backup_codes = λ w id hashes. (w, ok tt);
  find_and_use_backup_code = λ w id code. (w, ok false);
  audit = λ w e. w;
  notify = λ w n. w;
}

pub ports-OverTokens : OverTokens ports (λ w. w.tokens) (λ w. pos w.clock)
ports-OverTokens = record {
  find_valid_reads = λ w h. refl;
  find_any_reads = λ w h. refl;
  revoke_family_writes = λ w f. refl;
  audit_keeps = λ w e. refl;
}

abbrev pub config : Config
config = record {
  access_token_ttl = pos 900;
  refresh_token_ttl = pos 5000;
  max_failed_attempts = pos 3;
  lock_duration = pos 60;
  client_id = codes "web";
  mfa_temporary_ttl = pos 300;
}
