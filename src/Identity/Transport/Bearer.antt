-- ===== src/Identity/Transport/Bearer.antt =====
-- AuthRequired of modules/identity/transport/middleware.go over the tokens of infrastructure/token/jwt.go.
use kopiochi.Prelude.{
  pos, ◌*◌, ◌≡◌, ◌≢◌, refl, ap, sym, ◌∙◌, ◌+ℤ◌, ◌<ℤ◌, none, some, [], ◌∷◌, ◌++◌, Text, codes,
  is_empty-ne, ==_refl,
}
use kopiochi.Notification.Domain.Types.{ok, err}
use kopiochi.Notification.Application.Ports.{returns}
use kopiochi.Platform.Authn.{Principal, Context, must_from_context}
use kopiochi.Identity.Domain.{Time, Duration, Uuids, User}
use kopiochi.Identity.Application.Ports.{Class, access, mfa}
use kopiochi.Identity.Jwt.{
  PublicKey, PrivateKey, text, Token, wrong_class, Jwt, rs256, JwtService, unix, kid_value, sign,
  mfa_claims, issue_access_token, issue_mfa_token,
}
use kopiochi.Identity.Jwt.Validation.{key_func, of_class, validate}
use kopiochi.Identity.Jwt.Issuing.{instant, ParsesSigned, Accepts, issue_access_token_lem}
use kopiochi.Identity.Transport.{strip_prefix, bearer, with_token, with_claims, auth_required}

strip_own : (p s : Text) → strip_prefix p (p ++ s) ≡ some s
unfolding strip_prefix
strip_own [] s = refl
strip_own (b ∷ p) s = rw (==_refl b) (strip_own p s)

-- A token for the second factor, while it is valid, is no access token.
mfa_refused :
    (j : Jwt) (public_of : PrivateKey → PublicKey) (uu : Uuids) (s v : JwtService) (user : User)
    (at now : Time) (token : Text)
    → ParsesSigned j public_of
    → public_of s.private_key ≡ s.public_key
    → Accepts v s
    → issue_mfa_token j uu s user at ≡ ok token
    → now <ℤ instant (unix (at +ℤ pos (5 * 60 * 1000000000))) +ℤ v.leeway
    → validate j v token access now ≡ err (wrong_class (codes "mfa") (codes "access"))
unfolding validate issue_mfa_token sign ParsesSigned
mfa_refused j public_of uu s v user at now token law pair acc issued fresh =
    let t : Token = record {
      alg = rs256;
      kid_header = kid_value s.signing_kid;
      claims = mfa_claims uu s user at;
    } in
    ap (of_class access) (
      law s.private_key t token v.issuer v.audience v.leeway now (key_func v)
        (unix (at +ℤ pos (5 * 60 * 1000000000))) issued (acc.key ∙ ap ok (sym pair)) refl
        (ap (λ x. some (text x)) (sym acc.issuer)) (ap (λ x. some (text x)) (sym acc.audience)) refl
        fresh)

abbrev pub principal_of : Text → Principal
principal_of subject = record { subject = subject; scopes = none; extra = none }

-- For a token service that accepts the keys of the one that signs: an access token that was issued to a
-- user gets its bearer, until it expires, to the handler behind, which finds the user's id as the
-- subject of a Principal; a token for the second factor that was issued at the time `begun` does not,
-- while it is valid.
pub auth_required_lem :
    {X : Type 0} (reject : X) (next : Context → X) (ctx : Context) (j : Jwt)
    (public_of : PrivateKey → PublicKey) (uu : Uuids) (s v : JwtService) (user : User)
    (ttl : Duration) (at begun now : Time) (token second : Text)
    → ParsesSigned j public_of
    → public_of s.private_key ≡ s.public_key
    → Accepts v s
    → issue_access_token j uu s user ttl at ≡ ok token
    → now <ℤ instant (unix (at +ℤ ttl)) +ℤ v.leeway
    → issue_mfa_token j uu s user begun ≡ ok second
    → now <ℤ instant (unix (begun +ℤ pos (5 * 60 * 1000000000))) +ℤ v.leeway
    → (auth_required (λ t c. validate j v t c now) reject next ctx (bearer ++ token)
        ≡ next (some (principal_of (uu.to_text user.id))))
      × (must_from_context (some (principal_of (uu.to_text user.id)))
          ≡ returns (principal_of (uu.to_text user.id)))
      × (auth_required (λ t c. validate j v t c now) reject next ctx (bearer ++ second) ≡ reject)
unfolding auth_required must_from_context
auth_required_lem reject next ctx j public_of uu s v user ttl at begun now token second law pair acc
      issued fresh second_issued second_fresh =
    let check = λ (t : Text) (c : Class). validate j v t c now in
    let named = is_empty-ne (uu.to_text user.id) (uu.to_text_ne user.id) in
    let accepted =
      (issue_access_token_lem j public_of uu s v user ttl at now token mfa law pair acc issued fresh
        mfa_ne).0 in
    let refused =
      mfa_refused j public_of uu s v user begun now second law pair acc second_issued
        second_fresh in
    (
      ap (with_token check reject next ctx) (strip_own bearer token)
          ∙ (ap (with_claims reject next ctx) accepted ∙ rw named refl),
      rw named refl,
      ap (with_token check reject next ctx) (strip_own bearer second)
          ∙ ap (with_claims reject next ctx) refused,
    )
  where
    mfa_ne : codes "mfa" ≢ codes "access"
    mfa_ne e = cc
