-- ===== src/Identity/Application/SecondFactor.antt =====
-- What a VerifyMFA of modules/identity/application that gives tokens had checked.
use kopiochi.Prelude.{
  is_empty-nil, is_empty-false, ◌≡◌, ◌≢◌, refl, ◌⊎◌, inl, inr, Bool, true, false, [], Text,
  is_empty, Bool-cases,
}
use kopiochi.Notification.Domain.Types.{Result, ok, err}
use kopiochi.Identity.Domain.{User}
use kopiochi.Identity.Application.Ports.{
  Config, TokenResponse, MfaVerifyRequest, Claims, mfa, Fault, Ports,
}
use kopiochi.Identity.Application.Mfa.{if_mfa_token, second_factor, if_totp, if_backup, verify_mfa}
use kopiochi.Identity.Application.Granting.{IsIssued, issue_full_tokens_ok}

module _ {W : Type 0} (ports : Ports W) (cfg : Config) where
  -- The second factor of a request, and the world after its check: a code for the user's secret, or,
  -- with no code, a backup code.
  abbrev pub IsSecondFactor : MfaVerifyRequest → W → User → W → Type 0
  IsSecondFactor req w u v =
      ((req.code ≢ []) × (ports.validate_code w u.mfa_secret req.code ≡ (v, true)))
      ⊎ ((req.code ≡ [])
          × (req.backup_code ≢ [])
          × (ports.find_and_use_backup_code w (ports.uuids.to_text u.id) req.backup_code
              ≡ (v, ok true)))

  if_totp_ok :
      (u : User) (x : W × Bool) (r : TokenResponse)
      → (if_totp ports cfg u x).1 ≡ ok r
      → (x ≡ (x.0, true)) × IsIssued ports cfg x.0 u r
  if_totp_ok u (w, false) r h = cc
  if_totp_ok u (w, true) r h = (refl, issue_full_tokens_ok ports cfg w u r h)

  if_backup_ok :
      (u : User) (x : W × Result Bool Fault) (r : TokenResponse)
      → (if_backup ports cfg u x).1 ≡ ok r
      → (x ≡ (x.0, ok true)) × IsIssued ports cfg x.0 u r
  if_backup_ok u (w, err e) r h = cc
  if_backup_ok u (w, ok false) r h = cc
  if_backup_ok u (w, ok true) r h = (refl, issue_full_tokens_ok ports cfg w u r h)

  second_factor_ok :
      (req : MfaVerifyRequest) (x : W × Result User Fault) (r : TokenResponse)
      → (second_factor ports cfg req x).1 ≡ ok r
      → (u : User) × (v : W) × (x.1 ≡ ok u) × IsSecondFactor req x.0 u v × IsIssued ports cfg v u r
  second_factor_ok req (w, err e) r h = cc
  second_factor_ok req (w, ok u) r h = elim (Bool-cases (is_empty req.code)) [
    | inr code ↦
        let (good, issued) = if_totp_ok u _ r (rw code at h) in
        (u, _, refl, inl (is_empty-false req.code code, good), issued)
    | inl no_code ↦ elim (Bool-cases (is_empty req.backup_code)) [
      | inr backup ↦
          let (good, issued) = if_backup_ok u _ r (rw (no_code, backup) at h) in
          let given : req.backup_code ≢ [] = (λ e. is_empty-false req.backup_code backup e) in
          (u, _, refl, inr (is_empty-nil req.code no_code, given, good), issued)
      | inl nothing ↦ let bad = rw (no_code, nothing) at h in cc
    ]
  ]

  if_mfa_token_ok :
      (req : MfaVerifyRequest) (x : W × Result Claims Fault) (r : TokenResponse)
      → (if_mfa_token ports cfg req x).1 ≡ ok r
      → (claims : Claims) × (x.1 ≡ ok claims)
        × ((second_factor ports cfg req (ports.find_by_id x.0 claims.subject)).1 ≡ ok r)
  if_mfa_token_ok req (w, err e) r h = cc
  if_mfa_token_ok req (w, ok claims) r h = (claims, refl, h)

  -- VerifyMFA gives tokens only for a token of the class "mfa" that Validate accepts, to the user that
  -- is its subject, and for a second factor of that user that was checked: a code against the secret,
  -- or, if there is no code, an unused backup code. With neither there are no tokens. The access
  -- token was issued for that user, right after the check, and the refresh token's hash was stored as
  -- theirs.
  pub verify_mfa_ok :
      (w : W) (token : Text) (req : MfaVerifyRequest) (r : TokenResponse)
      → (verify_mfa ports cfg w token req).1 ≡ ok r
      → (claims : Claims) × (u : User) × (v : W) × ((ports.validate w token mfa).1 ≡ ok claims)
        × let found = ports.find_by_id (ports.validate w token mfa).0 claims.subject in
          (found.1 ≡ ok u) × IsSecondFactor req found.0 u v × IsIssued ports cfg v u r
  unfolding verify_mfa
  verify_mfa_ok w token req r h =
      let (claims, accepted, next) = if_mfa_token_ok req (ports.validate w token mfa) r h in
      let (u, v, found, factor, issued) = second_factor_ok req _ r next in
      (claims, u, v, accepted, (found, factor, issued))
