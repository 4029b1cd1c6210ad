-- ===== src/Identity/Jwt/Issuing.antt =====
-- Validate of jwt.go on the access tokens that a service signs, and WithPreviousKey.
use kopiochi.Prelude.{
  false, ℤ, pos, negsuc, ◌+◌, ◌*◌, ◌≡◌, ◌≢◌, refl, ap, sym, ◌∙◌, ◌⊎◌, inl, inr, ◌+ℤ◌, ◌<ℤ◌, none,
  some, [], ◌∷◌, Text, codes, text_eq, text_eq_refl, text_eq→eq, Bool-cases,
}
use kopiochi.Notification.Domain.Types.{Result, ok, err}
use kopiochi.Identity.Domain.{Time, Duration, Uuids, User}
use kopiochi.Identity.Application.Ports.{Class, access}
use kopiochi.Identity.Jwt.{
  PublicKey, PrivateKey, text, number, lookup, Token, JwtError, wrong_class, same_key, Jwt, kid,
  rs256, JwtService, build, with_previous_key, unix, kid_value, class_text, sign, access_claims,
  issue_access_token,
}
use kopiochi.Identity.Jwt.Validation.{key_for, key_func, of_class, validate}

-- time.Unix(e, 0)
abbrev pub instant : ℤ → Time
instant (pos n) = pos (n * 1000000000)
instant (negsuc n) = negsuc (n * 1000000000 + 999999999)

-- What golang-jwt documents of a token that was signed: it parses to itself where the key that the
-- keyfunc gives belongs to the key that signed it, its algorithm is listed, its issuer and audience are
-- the expected ones, and its exp, with the leeway, is ahead.
unfoldable pub ParsesSigned : Jwt → (PrivateKey → PublicKey) → Type 0
ParsesSigned j public_of =
    (priv : PrivateKey) (t : Token) (s issuer audience : Text) (leeway : Duration) (now : Time)
    (f : Token → Result PublicKey JwtError) (e : ℤ)
    → j.sign priv t ≡ ok s
    → f t ≡ ok (public_of priv)
    → t.alg ≡ rs256
    → lookup (codes "iss") t.claims ≡ some (text issuer)
    → lookup (codes "aud") t.claims ≡ some (text audience)
    → lookup (codes "exp") t.claims ≡ some (number e)
    → now <ℤ instant e +ℤ leeway
    → j.parse (rs256 ∷ []) issuer audience leeway now f s ≡ ok t

-- The service `v` has the name, the audience and the key of `s`, under its kid.
pub record Accepts (v s : JwtService) : Type 0 where
  pub issuer : v.issuer ≡ s.issuer
  pub audience : v.audience ≡ s.audience
  pub key : key_for v (kid_value s.signing_kid) ≡ ok s.public_key

-- An access token that one service signs and another, or itself, with its issuer, audience and key
-- validates before the token's exp plus the leeway: as an access token it is accepted with the
-- subject, the address and the name of the user and with no roles and no permissions; as a token of
-- another class it is refused.
pub issue_access_token_lem :
    (j : Jwt) (public_of : PrivateKey → PublicKey) (uu : Uuids) (s v : JwtService) (user : User)
    (ttl : Duration) (at now : Time) (token : Text) (want : Class)
    → ParsesSigned j public_of
    → public_of s.private_key ≡ s.public_key
    → Accepts v s
    → issue_access_token j uu s user ttl at ≡ ok token
    → now <ℤ instant (unix (at +ℤ ttl)) +ℤ v.leeway
    → class_text want ≢ codes "access"
    → (validate j v token access now
        ≡ ok (record {
          subject = uu.to_text user.id;
          email = user.email;
          name = user.name;
          roles = [];
          permissions = [];
          scope = codes "access";
          class = access;
          issued_at = unix at;
          expires_at = unix (at +ℤ ttl);
        }))
      × (validate j v token want now ≡ err (wrong_class (codes "access") (class_text want)))
unfolding validate issue_access_token sign ParsesSigned
issue_access_token_lem j public_of uu s v user ttl at now token want law pair acc issued fresh
      other =
    let t : Token = record {
      alg = rs256;
      kid_header = kid_value s.signing_kid;
      claims = access_claims uu s user ttl at;
    } in
    let parsed =
      law s.private_key t token v.issuer v.audience v.leeway now (key_func v) (unix (at +ℤ ttl))
        issued (acc.key ∙ ap ok (sym pair)) refl (ap (λ x. some (text x)) (sym acc.issuer))
        (ap (λ x. some (text x)) (sym acc.audience)) refl fresh in
    elim (Bool-cases (text_eq (codes "access") (class_text want))) [
      | inl same ↦ elim (other (sym (text_eq→eq (codes "access") (class_text want) same))) [ ]
      | inr differs ↦ (ap (of_class access) parsed, ap (of_class want) parsed ∙ rw differs refl)
    ]

kid_value-some : (s : Text) → s ≢ [] → kid_value s ≡ some (text s)
kid_value-some [] n = elim (n refl) [ ]
kid_value-some (b ∷ s) n = refl

text_eq-ne : (s t : Text) → text_eq s t ≡ false → s ≢ t
text_eq-ne s t h e = let same = rw e at h in let hit = text_eq_refl t in cc

-- With kids that are never empty, two services for one issuer and audience, and a kid of the old key that
-- is not the kid of the new one: WithPreviousKey succeeds with a service that accepts the tokens of
-- both and signs as before. If the kids are equal, and only then, it fails, and the service stays as
-- it was.
pub with_previous_key_lem :
    (j : Jwt) (new_priv old_priv : PrivateKey) (new_key old_key : PublicKey)
    (issuer audience : Text) (leeway old_leeway : Duration)
    → ((key : PublicKey) → kid j key ≢ [])
    → let new = build j new_priv new_key issuer audience leeway in
      let old = build j old_priv old_key issuer audience old_leeway in
      let x = with_previous_key j new (ok old_key) in
      ((kid j old_key ≡ kid j new_key) × (x ≡ (new, some same_key)))
      ⊎ ((kid j old_key ≢ kid j new_key)
          × (x.1 ≡ none)
          × Accepts x.0 old
          × Accepts x.0 new
          × (x.0.private_key ≡ new_priv)
          × (x.0.signing_kid ≡ kid j new_key))
unfolding with_previous_key
with_previous_key_lem j new_priv old_priv new_key old_key issuer audience leeway old_leeway n =
    elim (Bool-cases (text_eq (kid j old_key) (kid j new_key))) [
      | inl same ↦ inl (text_eq→eq (kid j old_key) (kid j new_key) same, rw same refl)
      | inr differs ↦ inr (
        text_eq-ne (kid j old_key) (kid j new_key) differs,
        rw differs refl,
        rw differs (record {
          issuer = refl;
          audience = refl;
          key =
              rw (kid_value-some (kid j old_key) (n old_key))
                (rw (text_eq_refl (kid j old_key)) refl);
        }),
        rw differs (record {
          issuer = refl;
          audience = refl;
          key =
              rw (kid_value-some (kid j new_key) (n new_key))
                (rw differs (rw (text_eq_refl (kid j new_key)) refl));
        }),
        rw differs refl,
        rw differs refl,
      )
    ]
