-- ===== src/Identity/Transport.antt =====
-- modules/identity/transport: auth.go, helpers.go and middleware.go. The JSON decoder of the bodies is
-- the parameter `Bodies`; what a handler writes is a value.
pub mod Bearer
pub mod Cookies
use kopiochi.Prelude.{
  ℕ, ℤ, pos, negsuc, ◌==◌, Bool, true, false, Option, none, some, List, [], ◌∷◌, Text, codes,
  is_empty, if◌then◌else◌,
}
use kopiochi.Notification.Domain.Types.{Result, ok, err}
use kopiochi.Notification.Application.Ports.{Outcome, returns, panics}
use kopiochi.Platform.Authn.{Principal, Context, with_principal, must_from_context}
use kopiochi.Identity.Domain.{Time, Duration}
use kopiochi.Identity.Application.Ports.{
  Config, Class, access, Claims, LoginRequest, TokenResponse, UserDto, MfaVerifyRequest,
  MfaSetupResponse, AuthError, invalid_credentials, account_locked, invalid_mfa_token,
  invalid_mfa_code, mfa_not_started, refresh_token_invalid, mfa_required, Ports, Answer,
}
use kopiochi.Identity.Application.Login
use kopiochi.Identity.Application.Refresh
use kopiochi.Identity.Application.Mfa

-- A refresh cookie: its value and MaxAge. It is HttpOnly, Secure and SameSite=Strict, for the path "/".
pub record Cookie : Type 0 where
  pub value : Text
  pub max_age : ℤ

-- What the JSON bodies are made of.
pub data Body : Type 0 where
  tokens : TokenResponse → Body
  second_factor : Text → UserDto → Body
  setup : MfaSetupResponse → Body
  codes_body : List Text → Body
  oauth2_error : Text → Text → Body
  problem_details : Text → Text → Text → Body
  no_body : Body

pub record Reply : Type 0 where
  pub status : ℕ
  pub cookie : Option Cookie
  pub body : Body

-- json.Decoder on the bodies. That of Refresh gives the field, empty where there is no body or an error.
pub record Bodies : Type 0 where
  pub login_request : Text → Option LoginRequest
  pub setup_code : Text → Option Text
  pub verify_request : Text → Option MfaVerifyRequest
  pub refresh_token : Text → Text

-- writeOAuth2Error and writeProblemDetails
abbrev pub write_oauth2_error : Text → Text → ℕ → Reply
write_oauth2_error code description status = record {
  status = status;
  cookie = none;
  body = oauth2_error code description;
}

abbrev pub write_problem_details : Text → Text → ℕ → Text → Reply
write_problem_details kind title status detail = record {
  status = status;
  cookie = none;
  body = problem_details kind title detail;
}

-- strings.HasPrefix and strings.TrimPrefix
unfoldable pub strip_prefix : Text → Text → Option Text
strip_prefix [] s = some s
strip_prefix (p ∷ ps) [] = none
strip_prefix (p ∷ ps) (b ∷ s) = let rest = strip_prefix ps s in if p == b then rest else none

abbrev pub bearer : Text
bearer = codes "Bearer "

-- AuthRequired: `validate` is the token service's, `reject` what httpx.Unauthorized leads to, and
-- `next` the handler behind.
abbrev pub with_claims : {X E : Type 0} → X → (Context → X) → Context → Result Claims E → X
with_claims reject next ctx (err e) = reject
with_claims reject next ctx (ok claims) =
    if is_empty claims.subject
    then reject
    else next
        (with_principal ctx (record { subject = claims.subject; scopes = none; extra = none }))

abbrev pub with_token :
    {X E : Type 0}
    → (Text → Class → Result Claims E)
    → X
    → (Context → X)
    → Context
    → Option Text
    → X
with_token validate reject next ctx none = reject
with_token validate reject next ctx (some token) =
    with_claims reject next ctx (validate token access)

unfoldable pub auth_required :
    {X E : Type 0} → (Text → Class → Result Claims E) → X → (Context → X) → Context → Text → X
unfolding strip_prefix
auth_required validate reject next ctx header =
    with_token validate reject next ctx (strip_prefix bearer header)

-- `authn.MustFromContext(r.Context()).Subject` in front of a handler.
abbrev pub for_subject : {X : Type 0} → Outcome Principal → (Text → X) → Outcome X
for_subject (panics v) handler = panics v
for_subject (returns p) handler = returns (handler p.subject)

module _ {W : Type 0} (ports : Ports W) (cfg : Config) (bodies : Bodies)
    (refresh_ttl : Duration) where
  -- setRefreshCookie and clearRefreshCookie
  abbrev pub set_refresh_cookie : Text → Cookie
  set_refresh_cookie token = record { value = token; max_age = ports.seconds refresh_ttl }

  abbrev pub clear_refresh_cookie : Cookie
  clear_refresh_cookie = record { value = []; max_age = negsuc 0 }

  -- The success of Login, MFAVerify and Refresh.
  abbrev pub grant : TokenResponse → Reply
  grant resp = record {
    status = 200;
    cookie = some (set_refresh_cookie resp.refresh_token);
    body = tokens (record resp { refresh_token = [] });
  }

  abbrev pub login_error : AuthError → Reply
  login_error (mfa_required token user) = record {
    status = 202;
    cookie = none;
    body = second_factor token user;
  }
  login_error invalid_credentials =
      write_oauth2_error (codes "invalid_grant") (codes "Invalid email or password") 400
  login_error account_locked =
      write_problem_details (codes "account_locked") (codes "Account locked") 423
        (codes "Too many failed attempts")
  login_error _ =
      write_problem_details (codes "internal_error") (codes "Internal server error") 500 []

  abbrev pub replied : (AuthError → Reply) → Answer ports TokenResponse → W × Reply
  replied refusal (w, err e) = (w, refusal e)
  replied refusal (w, ok resp) = (w, grant resp)

  abbrev pub login_decoded : W → Option LoginRequest → W × Reply
  login_decoded w none =
      (w, write_oauth2_error (codes "invalid_request") (codes "malformed request") 400)
  login_decoded w (some req) = replied login_error (Login.login ports cfg w req)

  -- Login
  unfoldable pub login : W → Text → W × Reply
  login w body = login_decoded w (bodies.login_request body)

  abbrev pub logged_out : Answer ports (Unit {0}) → W × Reply
  logged_out (w, err e) =
      (w, write_problem_details (codes "internal_error") (codes "Logout failed") 500 [])
  logged_out (w, ok done) =
      (w, record { status = 204; cookie = some clear_refresh_cookie; body = no_body })

  -- Logout
  unfoldable pub logout : W → Context → Outcome (W × Reply)
  unfolding must_from_context
  logout w ctx =
      for_subject (must_from_context ctx) (λ subject. logged_out (Login.logout ports cfg w subject))

  abbrev pub set_up : Answer ports MfaSetupResponse → W × Reply
  set_up (w, err e) =
      (w, write_problem_details (codes "internal_error") (codes "MFA setup failed") 500 [])
  set_up (w, ok resp) = (w, record { status = 200; cookie = none; body = setup resp })

  -- MFASetup
  unfoldable pub mfa_setup : W → Context → Outcome (W × Reply)
  unfolding must_from_context
  mfa_setup w ctx =
      for_subject (must_from_context ctx) (λ subject. set_up (Mfa.setup_mfa ports cfg w subject))

  abbrev pub setup_error : AuthError → Reply
  setup_error mfa_not_started =
      write_problem_details (codes "mfa_not_started")
        (codes "Call /auth/mfa/setup before confirming") 400 []
  setup_error invalid_mfa_code =
      write_problem_details (codes "invalid_code") (codes "Invalid TOTP code") 400 []
  setup_error _ =
      write_problem_details (codes "internal_error") (codes "Verification failed") 500 []

  abbrev pub confirmed : Answer ports (List Text) → W × Reply
  confirmed (w, err e) = (w, setup_error e)
  confirmed (w, ok backup) = (w, record { status = 200; cookie = none; body = codes_body backup })

  abbrev pub confirm_decoded : W → Text → Option Text → W × Reply
  confirm_decoded w subject none =
      (w, write_problem_details (codes "bad_request") (codes "Invalid request") 400 [])
  confirm_decoded w subject (some code) = confirmed (Mfa.verify_mfa_setup ports cfg w subject code)

  -- MFAVerifySetup
  unfoldable pub mfa_verify_setup : W → Context → Text → Outcome (W × Reply)
  unfolding must_from_context
  mfa_verify_setup w ctx body =
      for_subject (must_from_context ctx)
        (λ subject. confirm_decoded w subject (bodies.setup_code body))

  abbrev pub verify_error : AuthError → Reply
  verify_error invalid_mfa_token =
      write_oauth2_error (codes "invalid_token") (codes "Invalid MFA token") 401
  verify_error invalid_mfa_code =
      write_oauth2_error (codes "invalid_grant") (codes "Invalid code") 400
  verify_error _ = write_oauth2_error (codes "server_error") (codes "Internal error") 500

  abbrev pub verify_decoded : W → Text → Option MfaVerifyRequest → W × Reply
  verify_decoded w token none =
      (w, write_oauth2_error (codes "invalid_request") (codes "Invalid body") 400)
  verify_decoded w token (some req) = replied verify_error (Mfa.verify_mfa ports cfg w token req)

  abbrev pub verify_with : W → Option Text → Text → W × Reply
  verify_with w none body =
      (w, write_oauth2_error (codes "invalid_request") (codes "Missing mfa token") 401)
  verify_with w (some token) body = verify_decoded w token (bodies.verify_request body)

  -- MFAVerify, with the Authorization header.
  unfoldable pub mfa_verify : W → Text → Text → W × Reply
  unfolding strip_prefix
  mfa_verify w header body = verify_with w (strip_prefix bearer header) body

  abbrev pub refresh_error : AuthError → Reply
  refresh_error refresh_token_invalid =
      write_oauth2_error (codes "invalid_grant") (codes "Invalid or expired refresh token") 400
  refresh_error _ = write_problem_details (codes "internal_error") (codes "Internal error") 500 []

  abbrev pub from_cookie : Option Text → Text
  from_cookie none = []
  from_cookie (some value) = value

  -- Refresh, with the value of the cookie, if there is one.
  unfoldable pub refresh : W → Text → Option Text → W × Reply
  refresh w body cookie =
      let given = bodies.refresh_token body in
      let token = if is_empty given then from_cookie cookie else given in
      let answer = replied refresh_error (Refresh.refresh ports cfg w token) in
      if is_empty token
      then (w, write_oauth2_error (codes "invalid_request") (codes "refresh token missing") 400)
      else answer
