-- ===== src/Identity/Application/Refresh.antt =====
-- modules/identity/application/refresh.go: rotation with reuse detection.
use kopiochi.Prelude.{ℕ, ◌+ℤ◌, false, ◌||◌, Option, none, some, Text, is_empty, if◌then◌else◌}
use kopiochi.Notification.Domain.Types.{Result, ok, err}
use kopiochi.Identity.Domain.{Time, User, RefreshToken}
use kopiochi.Identity.Application.Ports.{
  Config, TokenResponse, Fault, AuthError, refresh_token_invalid, random_failed, rotate_failed,
  access_token, refresh_reuse_detected, Ports, Answer, generate_random_token,
}
use kopiochi.Identity.Application.Login.{response, or_empty}

module _ {W : Type 0} (ports : Ports W) (cfg : Config) where
  abbrev pub after_revoke_family : RefreshToken → W × Result ℕ Fault → W
  after_revoke_family tok (w, err e) =
      ports.audit w (refresh_reuse_detected tok.user_id tok.family_id 0 (some e.text))
  after_revoke_family tok (w, ok revoked) =
      ports.audit w (refresh_reuse_detected tok.user_id tok.family_id revoked none)

  -- revokeFamilyForReuse
  unfoldable pub revoke_family_for_reuse : W → RefreshToken → W × AuthError
  revoke_family_for_reuse w tok =
      (after_revoke_family tok (ports.revoke_family w tok.family_id), refresh_token_invalid)

  abbrev pub if_known : W × Result (Option RefreshToken) Fault → W × AuthError
  if_known (w, err e) = (w, refresh_token_invalid)
  if_known (w, ok none) = (w, refresh_token_invalid)
  if_known (w, ok (some known)) =
      if known.used || known.revoked
      then revoke_family_for_reuse w known
      else (w, refresh_token_invalid)

  -- handleUnusableRefreshToken
  unfoldable pub handle_unusable_refresh_token : W → Text → W × AuthError
  unfolding revoke_family_for_reuse
  handle_unusable_refresh_token w hash = if_known (ports.find_any w hash)

  abbrev pub fails : {A : Type 0} → W × AuthError → Answer ports A
  fails (w, e) = (w, err e)

  -- The token that replaces the one that is presented, in its family.
  abbrev pub next_token : User → RefreshToken → Text → Time → RefreshToken
  next_token u stored plain now = record {
    user_id = ports.uuids.to_text u.id;
    token_hash = ports.hash_token plain;
    expires_at = now +ℤ cfg.refresh_token_ttl;
    family_id = stored.family_id;
    used = false;
    revoked = false;
  }

  abbrev pub after_access : User → Text → W × Result Text Fault → Answer ports TokenResponse
  after_access u plain (w, err e) = (w, err (access_token e))
  after_access u plain (w, ok access) =
      let (w', id_token) = ports.issue_id_token w u cfg.client_id in
      (w', ok (response ports cfg access plain (or_empty ports cfg id_token)))

  abbrev pub after_rotate :
      User → RefreshToken → Text → W × Result (Unit {0}) Fault → Answer ports TokenResponse
  after_rotate u stored plain (w, err e) =
      if e.already_used
      then fails (revoke_family_for_reuse w stored)
      else (w, err (rotate_failed e))
  after_rotate u stored plain (w, ok done) =
      after_access u plain (ports.issue_access_token w u cfg.access_token_ttl)

  abbrev pub after_random :
      Text → User → RefreshToken → W × Result Text Fault → Answer ports TokenResponse
  after_random hash u stored (w, err e) = (w, err (random_failed e))
  after_random hash u stored (w, ok plain) =
      let (w', now) = ports.now w in
      after_rotate u stored plain (ports.rotate w' hash (next_token u stored plain now))

  abbrev pub after_user : Text → RefreshToken → W × Result User Fault → Answer ports TokenResponse
  after_user hash stored (w, err e) = (w, err refresh_token_invalid)
  after_user hash stored (w, ok u) = after_random hash u stored (generate_random_token ports w)

  abbrev pub if_found : Text → W × Result (Option RefreshToken) Fault → Answer ports TokenResponse
  if_found hash (w, err e) = fails (handle_unusable_refresh_token w hash)
  if_found hash (w, ok none) = fails (handle_unusable_refresh_token w hash)
  if_found hash (w, ok (some stored)) = after_user hash stored (ports.find_by_id w stored.user_id)

  -- Refresh
  unfoldable pub refresh : W → Text → Answer ports TokenResponse
  unfolding handle_unusable_refresh_token generate_random_token
  refresh w token =
      let hash = ports.hash_token token in
      if is_empty token
      then (w, err refresh_token_invalid)
      else if_found hash (ports.find_valid w hash)
