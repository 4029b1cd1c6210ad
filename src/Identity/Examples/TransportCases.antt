-- ===== src/Identity/Examples/TransportCases.antt =====
-- The theorems on modules/identity/transport over a library that signs two tokens, and at one login.
use kopiochi.Prelude.{
  ℕ, pos, ◌≡◌, refl, ap, sym, ◌∙◌, ◌⊎◌, inl, inr, ◌+ℤ◌, Bool, Bool-cases, true, false, none, some,
  [], ◌∷◌, ◌++◌, Text, codes, text_eq, arith, if◌then◌else◌,
}
use kopiochi.Notification.Domain.Types.{Result, ok, err}
use kopiochi.Notification.Application.Ports.{returns}
use kopiochi.Platform.Authn.{Context, must_from_context}
use kopiochi.Identity.Domain.{is_locked}
use kopiochi.Identity.Application.Ports.{LoginRequest}
use kopiochi.Identity.Application.Login
use kopiochi.Identity.Application.Mfa
use kopiochi.Identity.Application.Refresh
use kopiochi.Identity.Transport.{strip_prefix}
use kopiochi.Identity.Jwt.{
  Token, Jwt, kid, kid_value, rs256, JwtService, build, access_claims, mfa_claims, sign,
  issue_access_token, issue_mfa_token,
}
use kopiochi.Identity.Jwt.Validation.{validate}
use kopiochi.Identity.Jwt.Issuing.{ParsesSigned, Accepts}
use kopiochi.Identity.Transport.{
  Bodies, bearer, auth_required, write_oauth2_error, login, mfa_verify, refresh,
}
use kopiochi.Identity.Transport.Bearer.{principal_of, auth_required_lem}
use kopiochi.Identity.Transport.Cookies.{
  IsRefusal, Serves, Follows, tokens_in_cookie, login_uniform,
}
use kopiochi.Identity.Examples.World.{plain_uuids, ann, world, ports, config}
use kopiochi.Identity.Examples.JwtCases.{
  same_value, same_claims, same_kid, same_token, same_token→eq, if_keyed, key_of, library_for_none,
}

-- What signing gives, by whether the token is the first or the second.
abbrev sealed_as : Bool → Bool → Result Text Text
sealed_as true second = ok (codes "T")
sealed_as false true = ok (codes "S")
sealed_as false false = err (codes "another token")

abbrev library_of : Token → Token → Jwt
library_of t u = record {
  base64url = λ s. s;
  sha256 = λ s. s;
  sign = λ priv x. sealed_as (same_token x t) (same_token x u);
  parse = λ algs issuer audience leeway now f s.
      if text_eq s (codes "T") then if_keyed t (f t) else if_keyed u (f u);
}

signs_two :
    (t u x : Token) (s : Text)
    → sealed_as (same_token x t) (same_token x u) ≡ ok s
    → ((x ≡ t) × (s ≡ codes "T")) ⊎ ((x ≡ u) × (s ≡ codes "S"))
signs_two t u x s h = elim (Bool-cases (same_token x t)) [
  | inl same ↦ inl (same_token→eq x t same, ok_text (codes "T") s (rw same at h))
  | inr differs ↦ elim (Bool-cases (same_token x u)) [
    | inl same ↦ inr (same_token→eq x u same, ok_text (codes "S") s (rw (differs, same) at h))
    | inr other ↦ absurd (failed s (rw (differs, other) at h))
  ]
]
  where
    ok_text : (a b : Text) → ◌≡◌ {A = Result Text Text} (ok a) (ok b) → b ≡ a
    ok_text a b e = cc

    failed : (b : Text) → ◌≡◌ {A = Result Text Text} (err (codes "another token")) (ok b) → ⊥
    failed b e = cc

library_of-ParsesSigned : (t u : Token) → ParsesSigned (library_of t u) key_of
unfolding ParsesSigned
library_of-ParsesSigned t u priv x s issuer audience leeway now f e signed key alg iss aud exp
      fresh =
    elim (signs_two t u x s signed) [
      | inl (same, text) ↦ rw text (ap (if_keyed t) (ap f (sym same) ∙ key) ∙ ap ok (sym same))
      | inr (same, text) ↦ rw text (ap (if_keyed u) (ap f (sym same) ∙ key) ∙ ap ok (sym same))
    ]

abbrev signer : JwtService
signer = build library_for_none 5 (key_of 5) (codes "me") (codes "you") (pos 0)

abbrev access_token : Token
access_token = record {
  alg = rs256;
  kid_header = kid_value (kid library_for_none (key_of 5));
  claims = access_claims plain_uuids signer ann (pos 3000000000) (pos 1000000000);
}

abbrev second_token : Token
second_token = record {
  alg = rs256;
  kid_header = kid_value (kid library_for_none (key_of 5));
  claims = mfa_claims plain_uuids signer ann (pos 1000000000);
}

abbrev library : Jwt
library = library_of access_token second_token

signer-Accepts_own : Accepts signer signer
unfolding kid
signer-Accepts_own = record { issuer = refl; audience = refl; key = refl }

access_signed :
    issue_access_token library plain_uuids signer ann (pos 3000000000) (pos 1000000000)
    ≡ ok (codes "T")
unfolding issue_access_token sign same_token same_claims same_kid same_value kid ◌+ℤ◌
access_signed = refl

second_signed : issue_mfa_token library plain_uuids signer ann (pos 1000000000) ≡ ok (codes "S")
unfolding issue_mfa_token sign same_token same_claims same_kid same_value kid ◌+ℤ◌
second_signed = refl

-- The handler behind gives the number 1, and a rejection is 0.
abbrev behind : Context → ℕ
behind ctx = 1

auth_required_lem_example :
    (auth_required
        (λ t c. validate library signer t c (pos 2000000000))
        0
        behind
        none
        (bearer ++ codes "T")
      ≡ 1)
    × (must_from_context (some (principal_of (42 ∷ []))) ≡ returns (principal_of (42 ∷ [])))
    × (auth_required
          (λ t c. validate library signer t c (pos 2000000000))
          0
          behind
          none
          (bearer ++ codes "S")
        ≡ 0)
unfolding ◌+ℤ◌
auth_required_lem_example =
    auth_required_lem 0 behind none library key_of plain_uuids signer signer ann (pos 3000000000)
      (pos 1000000000) (pos 1000000000) (pos 2000000000) (codes "T") (codes "S")
      (library_of-ParsesSigned access_token second_token) refl signer-Accepts_own access_signed
      (omega arith) second_signed (omega arith)

-- Every body is a login of ann with a wrong password.
abbrev wrong_login : LoginRequest
wrong_login = record { username = codes "ann"; password = codes "guess" }

abbrev toy_bodies : Bodies
toy_bodies = record {
  login_request = λ s. some wrong_login;
  setup_code = some;
  verify_request = λ s. some (record { code = s; backup_code = [] });
  refresh_token = λ s. s;
}

tokens_in_cookie_example :
    Serves ports config toy_bodies
      (pos 60)
      (toy_bodies.login_request [])
      (Login.login ports config world)
      (login ports config toy_bodies (pos 60) world [])
    × (((strip_prefix bearer (codes "Bearer mfa") ≡ none)
          × IsRefusal (mfa_verify ports config toy_bodies (pos 60) world (codes "Bearer mfa") []).1)
        ⊎ ((token : Text) × (strip_prefix bearer (codes "Bearer mfa") ≡ some token)
            × Serves ports config toy_bodies
                (pos 60)
                (toy_bodies.verify_request [])
                (Mfa.verify_mfa ports config world token)
                (mfa_verify ports config toy_bodies (pos 60) world (codes "Bearer mfa") [])))
    × (((codes "b" ≡ [])
          × IsRefusal (refresh ports config toy_bodies (pos 60) world [] (some (codes "b"))).1)
        ⊎ Follows ports config toy_bodies
            (pos 60)
            (Refresh.refresh ports config world (codes "b"))
            (refresh ports config toy_bodies (pos 60) world [] (some (codes "b"))))
tokens_in_cookie_example =
    tokens_in_cookie ports config toy_bodies (pos 60) world [] (codes "Bearer mfa")
      (some (codes "b"))

login_uniform_example :
    (login ports config toy_bodies (pos 60) world []).1
    ≡ write_oauth2_error (codes "invalid_grant") (codes "Invalid email or password") 400
login_uniform_example =
    login_uniform ports config toy_bodies (pos 60) world [] wrong_login refl
      (inr (ann, refl, unfold is_locked in refl, refl))
