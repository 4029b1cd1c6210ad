-- ===== src/Identity/Transport/Cookies.antt =====
-- Where the handlers of modules/identity/transport/auth.go put a refresh token, and what Login tells.
use kopiochi.Prelude.{
  is_empty-nil, ◌≡◌, refl, ◌⊎◌, inl, inr, Bool, true, false, Bool-cases, Option-cases, Option, none,
  some, [], Text, codes, is_empty, arith, if◌then◌else◌,
}
use kopiochi.Notification.Domain.Types.{ok, err}
use kopiochi.Identity.Domain.{Duration, User}
use kopiochi.Identity.Application.Ports.{
  Config, LoginRequest, TokenResponse, AuthError, Fault, Ports, Answer, MfaVerifyRequest,
}
use kopiochi.Identity.Application.Login
use kopiochi.Identity.Application.Login.{check_lock, after_find, reject_password}
use kopiochi.Identity.Application.Refresh
use kopiochi.Identity.Application.Mfa
use kopiochi.Identity.Transport.{
  Body, tokens, Reply, Bodies, strip_prefix, bearer, write_oauth2_error, login_error, verify_error,
  refresh_error, replied, login_decoded, login, verify_decoded, mfa_verify, refresh,
}

abbrev pub has_tokens : Body → Bool
has_tokens (tokens t) = true
has_tokens _ = false

-- A reply that sets no cookie and has no tokens.
abbrev pub IsRefusal : Reply → Type 0
IsRefusal r = (r.cookie ≡ none) × (has_tokens r.body ≡ false)

module _ {W : Type 0} (ports : Ports W) (cfg : Config) (bodies : Bodies)
    (refresh_ttl : Duration) where
  -- The reply that gives tokens away: the refresh token is the value of the cookie, which lives as long
  -- as refresh tokens do, and the body has the other fields and no refresh token.
  abbrev pub Grants : TokenResponse → Reply → Type 0
  Grants resp r =
      (r.status ≡ 200)
      × (r.cookie
          ≡ some (record { value = resp.refresh_token; max_age = ports.seconds refresh_ttl }))
      × (r.body
          ≡ tokens (record {
            access_token = resp.access_token;
            token_type = resp.token_type;
            expires_in = resp.expires_in;
            refresh_token = [];
            id_token = resp.id_token;
            scope = resp.scope;
          }))

  -- What a handler makes of the answer of its use case.
  abbrev pub Follows : Answer ports TokenResponse → W × Reply → Type 0
  Follows a x =
      (x.0 ≡ a.0)
      × (((resp : TokenResponse) × (a.1 ≡ ok resp) × Grants resp x.1)
          ⊎ ((e : AuthError) × (a.1 ≡ err e) × IsRefusal x.1))

  replied-Follows :
      (refusal : AuthError → Reply)
      → ((e : AuthError) → IsRefusal (refusal e))
      → (a : Answer ports TokenResponse)
      → Follows a (replied ports cfg bodies refresh_ttl refusal a)
  replied-Follows refusal safe (w, err e) = (refl, inr (e, refl, safe e))
  replied-Follows refusal safe (w, ok resp) = (refl, inl (resp, refl, (refl, refl, refl)))

  login_error-IsRefusal : (e : AuthError) → IsRefusal (login_error ports cfg bodies refresh_ttl e)
  login_error-IsRefusal e = ground arith

  verify_error-IsRefusal : (e : AuthError) → IsRefusal (verify_error ports cfg bodies refresh_ttl e)
  verify_error-IsRefusal e = ground arith

  refresh_error-IsRefusal :
      (e : AuthError) → IsRefusal (refresh_error ports cfg bodies refresh_ttl e)
  refresh_error-IsRefusal e = ground arith

  -- The reply to a request that does not decode, or the reply to the answer for one that does.
  abbrev pub Serves :
      {R : Type 0} → Option R → (R → Answer ports TokenResponse) → W × Reply → Type 0
  Serves {R} o use_case x =
      ((o ≡ none) × IsRefusal x.1) ⊎ ((req : R) × (o ≡ some req) × Follows (use_case req) x)

  login_decoded-Serves :
      (w : W) (o : Option LoginRequest)
      → Serves o (Login.login ports cfg w) (login_decoded ports cfg bodies refresh_ttl w o)
  login_decoded-Serves w none = inl (refl, (refl, refl))
  login_decoded-Serves w (some req) = inr (
    req,
    refl,
    replied-Follows (login_error ports cfg bodies refresh_ttl) login_error-IsRefusal
        (Login.login ports cfg w req),
  )

  verify_decoded-Serves :
      (w : W) (token : Text) (o : Option MfaVerifyRequest)
      → Serves o
          (Mfa.verify_mfa ports cfg w token)
          (verify_decoded ports cfg bodies refresh_ttl w token o)
  verify_decoded-Serves w token none = inl (refl, (refl, refl))
  verify_decoded-Serves w token (some req) = inr (
    req,
    refl,
    replied-Follows (verify_error ports cfg bodies refresh_ttl) verify_error-IsRefusal
        (Mfa.verify_mfa ports cfg w token req),
  )

  -- The refresh token of a request: that of the body, or else the cookie's.
  abbrev pub presented : Text → Option Text → Text
  presented body cookie =
      if is_empty (bodies.refresh_token body)
      then elim cookie [ none ↦ [] | some value ↦ value ]
      else bodies.refresh_token body

  -- Login, MFAVerify and Refresh give away what their use cases give, and a refresh token only in the
  -- cookie. A request that decodes is answered with 200, its refresh token as the cookie's value and
  -- the other fields as the body, if the use case gives tokens; in any other case the reply has no
  -- tokens and sets no cookie.
  pub tokens_in_cookie :
      (w : W) (body header : Text) (cookie : Option Text)
      → Serves
          (bodies.login_request body)
          (Login.login ports cfg w)
          (login ports cfg bodies refresh_ttl w body)
        × (((strip_prefix bearer header ≡ none)
              × IsRefusal (mfa_verify ports cfg bodies refresh_ttl w header body).1)
            ⊎ ((token : Text) × (strip_prefix bearer header ≡ some token)
                × Serves
                    (bodies.verify_request body)
                    (Mfa.verify_mfa ports cfg w token)
                    (mfa_verify ports cfg bodies refresh_ttl w header body)))
        × (((presented body cookie ≡ [])
              × IsRefusal (refresh ports cfg bodies refresh_ttl w body cookie).1)
            ⊎ Follows
                (Refresh.refresh ports cfg w (presented body cookie))
                (refresh ports cfg bodies refresh_ttl w body cookie))
  unfolding login mfa_verify refresh
  tokens_in_cookie w body header cookie = (
    login_decoded-Serves w (bodies.login_request body),
    elim (Option-cases (strip_prefix bearer header)) [
      | inl missing ↦ inl (missing, rw missing (refl, refl))
      | inr (token, there) ↦
          inr (token, there, rw there (verify_decoded-Serves w token (bodies.verify_request body)))
    ],
    elim (Bool-cases (is_empty (presented body cookie))) [
      | inl missing ↦ inl (is_empty-nil (presented body cookie) missing, rw missing (refl, refl))
      | inr there ↦ inr (
          rw there (
            replied-Follows (refresh_error ports cfg bodies refresh_ttl) refresh_error-IsRefusal
              (Refresh.refresh ports cfg w (presented body cookie))))
    ],
  )

  -- The name is unknown, or the account is not locked and the password is wrong.
  abbrev pub IsWrong : W → LoginRequest → Type 0
  IsWrong w req =
      ((e : Fault) × ((ports.find_by_username w req.username).1 ≡ err e))
      ⊎ ((u : User) × ((ports.find_by_username w req.username).1 ≡ ok u)
          × ((check_lock ports cfg (ports.find_by_username w req.username).0 u).1 ≡ false)
          × (ports.verify_password req.password u.password_hash ≡ false))

  -- An unknown name and a wrong password get one and the same reply, whatever the stores answer to the
  -- counter of failures.
  pub login_uniform :
      (w : W) (body : Text) (req : LoginRequest)
      → bodies.login_request body ≡ some req
      → IsWrong w req
      → (login ports cfg bodies refresh_ttl w body).1
        ≡ write_oauth2_error (codes "invalid_grant") (codes "Invalid email or password") 400
  unfolding login Login.login reject_password
  login_uniform w body req decoded (inl (e, unknown)) = rw decoded (rw unknown refl)
  login_uniform w body req decoded (inr (u, found, free, wrong)) =
      rw decoded (rw found (rw free (rw wrong refl)))
