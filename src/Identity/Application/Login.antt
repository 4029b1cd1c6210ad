-- ===== src/Identity/Application/Login.antt =====
-- modules/identity/application: login.go and logout.go.
use kopiochi.Prelude.{
  ◌+ℤ◌, Bool, true, false, not, ◌&&◌, none, some, [], Text, codes, if◌then◌else◌,
}
use kopiochi.Notification.Domain.Types.{Result, ok, err}
use kopiochi.Identity.Domain.{
  Time, User, RefreshToken, is_locked, record_failed_login, reset_failed_logins,
}
use kopiochi.Identity.Application.Ports.{
  Config, LoginRequest, TokenResponse, UserDto, Fault, invalid_credentials, account_locked,
  mfa_required, user_save, mfa_token, access_token, random_failed, store_refresh, passed_on,
  bad_password, unknown_user, account_locked_reason, login_succeeded, login_failed,
  account_locked_event, logout_succeeded, account_locked_notice, Ports, Answer,
  generate_random_token,
}

module _ {W : Type 0} (ports : Ports W) (cfg : Config) where
  -- toUserDTO
  abbrev pub to_user_dto : User → UserDto
  to_user_dto u = record {
    id = ports.uuids.to_text u.id;
    email = u.email;
    name = u.name;
    roles = u.roles;
    permissions = u.permissions;
  }

  -- `idToken, _ :=`: an error leaves the empty text.
  abbrev pub or_empty : Result Text Fault → Text
  or_empty (ok s) = s
  or_empty (err e) = []

  abbrev pub response : Text → Text → Text → TokenResponse
  response access refresh id_token = record {
    access_token = access;
    token_type = codes "Bearer";
    expires_in = ports.seconds cfg.access_token_ttl;
    refresh_token = refresh;
    id_token = id_token;
    scope = [];
  }

  -- The refresh token that issueFullTokens stores: of no family yet.
  abbrev pub first_token : User → Text → Time → RefreshToken
  first_token u plain now = record {
    user_id = ports.uuids.to_text u.id;
    token_hash = ports.hash_token plain;
    expires_at = now +ℤ cfg.refresh_token_ttl;
    family_id = [];
    used = false;
    revoked = false;
  }

  abbrev pub after_store :
      Text → Text → Text → W × Result (Unit {0}) Fault → Answer ports TokenResponse
  after_store access plain id_token (w, err e) = (w, err (store_refresh e))
  after_store access plain id_token (w, ok done) = (w, ok (response access plain id_token))

  abbrev pub after_random : User → Text → Text → W × Result Text Fault → Answer ports TokenResponse
  after_random u access id_token (w, err e) = (w, err (random_failed e))
  after_random u access id_token (w, ok plain) =
      let (w', now) = ports.now w in
      after_store access plain id_token (ports.store w' (first_token u plain now))

  abbrev pub after_access : User → W × Result Text Fault → Answer ports TokenResponse
  after_access u (w, err e) = (w, err (access_token e))
  after_access u (w, ok access) =
      let (w', id_token) = ports.issue_id_token w u cfg.client_id in
      after_random u access (or_empty id_token) (generate_random_token ports w')

  -- issueFullTokens
  unfoldable pub issue_full_tokens : W → User → Answer ports TokenResponse
  unfolding generate_random_token
  issue_full_tokens w u = after_access u (ports.issue_access_token w u cfg.access_token_ttl)

  -- `if !wasLocked && user.IsLocked()`, and the events behind it.
  abbrev pub report_lock : User → Bool → Bool → W → W
  report_lock u was_locked now_locked w =
      if not was_locked && now_locked
      then elim u.locked_until [
        | none ↦ w
        | some until ↦
            let id = ports.uuids.to_text u.id in
            ports.notify (ports.audit w (account_locked_event id)) (account_locked_notice id until)
      ]
      else w

  -- IsLocked, which reads the clock if there is a lock.
  abbrev pub check_lock : W → User → W × Bool
  check_lock w u = elim u.locked_until [
    | none ↦ (w, false)
    | some until ↦ let (w', now) = ports.now w in (w', is_locked u now)
  ]

  -- The branch of a wrong password. The clock of RecordFailedLogin is read whether it locks or not.
  unfoldable pub reject_password : W → Text → User → Answer ports TokenResponse
  reject_password w name u =
      let (w₁, was_locked) = check_lock w u in
      let (w₂, failed_at) = ports.now w₁ in
      let v = record_failed_login u cfg.max_failed_attempts cfg.lock_duration failed_at in
      let w₃ = (ports.save_user w₂ v).0 in
      let w₄ = ports.audit w₃ (login_failed name bad_password) in
      let (w₅, now_locked) = if was_locked then (w₄, true) else check_lock w₄ v in
      (report_lock v was_locked now_locked w₅, err invalid_credentials)

  abbrev pub after_issue : User → Answer ports TokenResponse → Answer ports TokenResponse
  after_issue u (w, err e) = (w, err e)
  after_issue u (w, ok r) = (ports.audit w (login_succeeded (ports.uuids.to_text u.id)), ok r)

  abbrev pub require_mfa : User → W × Result Text Fault → Answer ports TokenResponse
  require_mfa u (w, err e) = (w, err (mfa_token e))
  require_mfa u (w, ok token) = (w, err (mfa_required token (to_user_dto u)))

  abbrev pub after_reset : User → W × Result (Unit {0}) Fault → Answer ports TokenResponse
  after_reset u (w, err e) = (w, err (user_save e))
  after_reset u (w, ok done) =
      let full = after_issue u (issue_full_tokens w u) in
      if u.mfa_enabled then require_mfa u (ports.issue_mfa_token w u) else full

  abbrev pub after_find : LoginRequest → W × Result User Fault → Answer ports TokenResponse
  after_find req (w, err e) =
      (ports.audit w (login_failed req.username unknown_user), err invalid_credentials)
  after_find req (w, ok u) =
      let (w', locked) = check_lock w u in
      if locked
      then (ports.audit w' (login_failed req.username account_locked_reason), err account_locked)
      else if not (ports.verify_password req.password u.password_hash)
      then reject_password w' req.username u
      else after_reset (reset_failed_logins u) (ports.save_user w' (reset_failed_logins u))

  -- Login
  unfoldable pub login : W → LoginRequest → Answer ports TokenResponse
  unfolding issue_full_tokens reject_password
  login w req = after_find req (ports.find_by_username w req.username)

  abbrev pub after_revoke : Text → W × Result (Unit {0}) Fault → Answer ports (Unit {0})
  after_revoke user_id (w, err e) = (w, err (passed_on e))
  after_revoke user_id (w, ok done) = (ports.audit w (logout_succeeded user_id), ok tt)

  -- Logout
  unfoldable pub logout : W → Text → Answer ports (Unit {0})
  logout w user_id = after_revoke user_id (ports.revoke_all_for_user w user_id)
