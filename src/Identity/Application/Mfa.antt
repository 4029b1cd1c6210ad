-- ===== src/Identity/Application/Mfa.antt =====
-- modules/identity/application: mfa_setup.go, mfa_verify_setup.go and mfa_verify_login.go, and
-- ValidateCode of infrastructure/mfa/totp.go.
use kopiochi.Prelude.{
  ℕ, zero, suc, Bool, true, false, not, List, [], ◌∷◌, Text, is_empty, take, if◌then◌else◌,
}
use kopiochi.Notification.Domain.Types.{Result, ok, err}
use kopiochi.Identity.Domain.{User}
use kopiochi.Identity.Application.Ports.{
  Config, TokenResponse, MfaVerifyRequest, MfaSetupResponse, Claims, mfa, Fault, invalid_mfa_token,
  invalid_mfa_code, mfa_not_started, hash_backup, store_backup, passed_on, mfa_enabled_notice,
  Ports, Answer, encode_hex,
}
use kopiochi.Identity.Application.Login.{issue_full_tokens}

-- TOTPService.ValidateCode, over totp.Validate.
unfoldable pub validate_code : (Text → Text → Bool) → Text → Text → Bool
validate_code totp secret code = if is_empty secret then false else totp code secret

module _ {W : Type 0} (ports : Ports W) (cfg : Config) where
  abbrev pub after_setup_save :
      Text → Text → W × Result (Unit {0}) Fault → Answer ports MfaSetupResponse
  after_setup_save secret qr (w, err e) = (w, err (passed_on e))
  after_setup_save secret qr (w, ok done) = (w, ok (record { secret = secret; qr_code_url = qr }))

  abbrev pub after_secret : User → W × Result (Text × Text) Fault → Answer ports MfaSetupResponse
  after_secret u (w, err e) = (w, err (passed_on e))
  after_secret u (w, ok (secret, qr)) =
      after_setup_save secret qr (ports.save_user w (record u { mfa_secret = secret }))

  abbrev pub setup_for : W × Result User Fault → Answer ports MfaSetupResponse
  setup_for (w, err e) = (w, err (passed_on e))
  setup_for (w, ok u) = after_secret u (ports.generate_secret w u.email)

  -- SetupMFA
  unfoldable pub setup_mfa : W → Text → Answer ports MfaSetupResponse
  setup_mfa w user_id = setup_for (ports.find_by_id w user_id)

  -- `rand.Read(b)`: its error is not looked at, and leaves the four zero bytes.
  abbrev or_zeros : Result (List ℕ) Fault → List ℕ
  or_zeros (ok bytes) = bytes
  or_zeros (err e) = 0 ∷ 0 ∷ 0 ∷ 0 ∷ []

  abbrev pub and_code :
      Text
      → Text
      → W × Result (List Text × List Text) Fault
      → W × Result (List Text × List Text) Fault
  and_code code hash (w, err e) = (w, err e)
  and_code code hash (w, ok (codes, hashes)) = (w, ok (code ∷ codes, hash ∷ hashes))

  abbrev pub after_hash :
      Text
      → (W → W × Result (List Text × List Text) Fault)
      → W × Result Text Fault
      → W × Result (List Text × List Text) Fault
  after_hash code rest (w, err e) = (w, err e)
  after_hash code rest (w, ok hash) = and_code code hash (rest w)

  -- The loop that makes `n` backup codes and their hashes.
  unfoldable pub backup_codes : ℕ → W → W × Result (List Text × List Text) Fault
  backup_codes zero w = (w, ok ([], []))
  backup_codes (suc n) w =
      let rest = λ (v : W). backup_codes n v in
      let (w', bytes) = ports.read_random w 4 in
      let code = take 8 (encode_hex (or_zeros bytes)) in after_hash code rest (ports.bcrypt w' code)

  abbrev pub after_enable :
      Text → List Text → W × Result (Unit {0}) Fault → Answer ports (List Text)
  after_enable user_id codes (w, err e) = (w, err (passed_on e))
  after_enable user_id codes (w, ok done) =
      let (w', now) = ports.now w in (ports.notify w' (mfa_enabled_notice user_id now), ok codes)

  abbrev pub after_codes_stored :
      Text → User → List Text → W × Result (Unit {0}) Fault → Answer ports (List Text)
  after_codes_stored user_id u codes (w, err e) = (w, err (store_backup e))
  after_codes_stored user_id u codes (w, ok done) =
      after_enable user_id codes (ports.save_user w (record u { mfa_enabled = true }))

  abbrev pub after_codes :
      Text → User → W × Result (List Text × List Text) Fault → Answer ports (List Text)
  after_codes user_id u (w, err e) = (w, err (hash_backup e))
  after_codes user_id u (w, ok (codes, hashes)) =
      after_codes_stored user_id u codes (ports.store_backup_codes w user_id hashes)

  abbrev pub if_code_valid : Text → User → W × Bool → Answer ports (List Text)
  if_code_valid user_id u (w, false) = (w, err invalid_mfa_code)
  if_code_valid user_id u (w, true) = after_codes user_id u (backup_codes 8 w)

  abbrev pub confirm_for : Text → Text → W × Result User Fault → Answer ports (List Text)
  confirm_for user_id code (w, err e) = (w, err (passed_on e))
  confirm_for user_id code (w, ok u) =
      if is_empty u.mfa_secret
      then (w, err mfa_not_started)
      else if_code_valid user_id u (ports.validate_code w u.mfa_secret code)

  -- VerifyMFASetup: the backup codes in the clear.
  unfoldable pub verify_mfa_setup : W → Text → Text → Answer ports (List Text)
  unfolding backup_codes
  verify_mfa_setup w user_id code = confirm_for user_id code (ports.find_by_id w user_id)

  abbrev pub if_totp : User → W × Bool → Answer ports TokenResponse
  if_totp u (w, false) = (w, err invalid_mfa_code)
  if_totp u (w, true) = issue_full_tokens ports cfg w u

  abbrev pub if_backup : User → W × Result Bool Fault → Answer ports TokenResponse
  if_backup u (w, err e) = (w, err invalid_mfa_code)
  if_backup u (w, ok false) = (w, err invalid_mfa_code)
  if_backup u (w, ok true) = issue_full_tokens ports cfg w u

  abbrev pub second_factor : MfaVerifyRequest → W × Result User Fault → Answer ports TokenResponse
  second_factor req (w, err e) = (w, err invalid_mfa_token)
  second_factor req (w, ok u) =
      if not (is_empty req.code)
      then if_totp u (ports.validate_code w u.mfa_secret req.code)
      else if not (is_empty req.backup_code)
      then if_backup u (ports.find_and_use_backup_code w (ports.uuids.to_text u.id) req.backup_code)
      else (w, err invalid_mfa_code)

  abbrev pub if_mfa_token : MfaVerifyRequest → W × Result Claims Fault → Answer ports TokenResponse
  if_mfa_token req (w, err e) = (w, err invalid_mfa_token)
  if_mfa_token req (w, ok claims) = second_factor req (ports.find_by_id w claims.subject)

  -- VerifyMFA
  unfoldable pub verify_mfa : W → Text → MfaVerifyRequest → Answer ports TokenResponse
  unfolding issue_full_tokens
  verify_mfa w token req = if_mfa_token req (ports.validate w token mfa)
