-- ===== src/Identity/Examples/UseCases.antt =====
-- The theorems on the use cases of modules/identity/application.
use kopiochi.Prelude.{pos, ◌≡◌, ◌≢◌, refl, inl, inr, ◌+ℤ◌, true, false, some, [], codes, ◌==◌}
use kopiochi.Notification.Domain.Types.{ok, err}
use kopiochi.Identity.Domain.{User, RefreshToken, is_locked, reset_failed_logins}
use kopiochi.Identity.Tokens.{insert, store, find_valid, from_refresh_row, to_refresh_row}
use kopiochi.Identity.Tokens.Exchange.{rotate}
use kopiochi.Identity.Tokens.Revocation.{Revokes}
use kopiochi.Identity.Application.Ports.{
  LoginRequest, TokenResponse, MfaVerifyRequest, Claims, mfa, refresh_token_invalid,
  generate_random_token,
}
use kopiochi.Identity.Application.Login.{issue_full_tokens, login}
use kopiochi.Identity.Application.Refresh.{refresh}
use kopiochi.Identity.Application.Mfa.{validate_code, verify_mfa}
use kopiochi.Identity.Application.Granting.{IsIssued}
use kopiochi.Identity.Application.Authenticating.{IsVerified, cleared, verified_world, login_ok}
use kopiochi.Identity.Application.SecondFactor.{IsSecondFactor, verify_mfa_ok}
use kopiochi.Identity.Application.Replaying.{refresh_uniform, refresh_replayed}
use kopiochi.Identity.Application.Rotating.{IsExchanged, refresh_ok}
use kopiochi.Identity.Examples.World.{
  chain, token_row, World, world, ports, ports-OverTokens, config,
}
use kopiochi.Identity.Examples.TokenCases.{chain-HashesUnique}

-- 32 bytes are asked for, and one comes.
abbrev tokens_given : TokenResponse
tokens_given = record {
  access_token = codes "access";
  token_type = codes "Bearer";
  expires_in = pos 900;
  refresh_token = codes "07";
  id_token = [];
  scope = [];
}

abbrev right_password : LoginRequest
right_password = record { username = codes "ann"; password = codes "secret" }

login_ok_example :
    (u : User) × IsVerified ports config world right_password u
    × (u.mfa_enabled ≡ false)
    × let saved =
        ports.save_user
          (verified_world ports config world right_password u)
          (cleared ports config u) in
      (saved.1 ≡ ok tt) × IsIssued ports config saved.0 (cleared ports config u) tokens_given
login_ok_example = login_ok ports config world right_password tokens_given (
    unfold login is_locked reset_failed_logins issue_full_tokens generate_random_token store insert
      to_refresh_row ◌+ℤ◌ in
    refl)

abbrev with_code : MfaVerifyRequest
with_code = record { code = codes "123"; backup_code = [] }

verify_mfa_ok_example :
    (claims : Claims) × (u : User) × (v : World) × ((ports.validate world (codes "mfa") mfa).1
      ≡ ok claims)
    × let found = ports.find_by_id (ports.validate world (codes "mfa") mfa).0 claims.subject in
      (found.1 ≡ ok u)
      × IsSecondFactor ports config with_code found.0 u v
      × IsIssued ports config v u tokens_given
verify_mfa_ok_example = verify_mfa_ok ports config world (codes "mfa") with_code tokens_given (
    unfold verify_mfa validate_code issue_full_tokens generate_random_token store insert
      to_refresh_row ◌+ℤ◌ in
    refl)

refresh_ok_example :
    (stored : RefreshToken) × (u : User) × (codes "b" ≢ [])
    × let valid = ports.find_valid world (codes "b") in
      let owner = ports.find_by_id valid.0 stored.user_id in
      (valid.1 ≡ ok (some stored))
      × (owner.1 ≡ ok u)
      × IsExchanged ports config owner.0 (codes "b") u stored tokens_given
refresh_ok_example = refresh_ok ports config world (codes "b") tokens_given (
    unfold refresh generate_random_token find_valid from_refresh_row rotate insert to_refresh_row
      ◌+ℤ◌ in
    refl)

refresh_uniform_example : (refresh ports config world (codes "a")).1 ≡ err refresh_token_invalid
refresh_uniform_example =
    refresh_uniform ports config world (codes "a") (inr (λ t e. (unfold find_valid in cc)))

-- Token "a" again, after "b" replaced it.
refresh_replayed_example :
    ((refresh ports config world (codes "a")).1 ≡ err refresh_token_invalid)
    × Revokes (λ s. s.family_id == 9) chain (refresh ports config world (codes "a")).0.tokens
refresh_replayed_example =
    refresh_replayed ports config (λ w. w.tokens) (λ w. pos w.clock) ports-OverTokens world
      (codes "a") (token_row (codes "a") true (some (pos 20))) (λ e. cc) chain-HashesUnique refl
      (inl refl)
