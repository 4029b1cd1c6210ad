-- ===== src/Identity/Jwt.antt =====
-- modules/identity/infrastructure/token: jwt.go, less Validate, and Kid of jwks.go. The keys of the files
-- are arguments (`priv`, `pub`), and golang-jwt, with the hash and the encodings, is the parameter `Jwt`.
-- A reading of the clock is the argument `now`.
pub mod Validation
pub mod Issuing
use kopiochi.Prelude.{
  ℕ, ℤ, pos, negsuc, ◌+◌, ◌-◌, ◌*◌, ◌/◌, ◌≡◌, ◌+ℤ◌, Bool, true, false, Option, none, some, List, [],
  ◌∷◌, ◌++◌, map, Text, codes, text_eq, leb_ℤ, ltb_ℤ, if◌then◌else◌,
}
use kopiochi.Notification.Domain.Types.{Result, ok, err}
use kopiochi.Identity.Domain.{Time, Duration, Uuids, User}
use kopiochi.Identity.Application.Ports.{Class, access, mfa, id, other_class, Claims}

-- A key as the big-endian bytes of N and E, which Kid reads.
pub record PublicKey : Type 0 where
  pub modulus : Text
  pub exponent : Text

abbrev pub PrivateKey : Type 0
PrivateKey = ℕ

-- A JSON value of a claim or a header. A number is the integer that it stands for; an item of an
-- array is there as far as it is a string.
pub data Value : Type 0 where
  text : Text → Value
  number : ℤ → Value
  items : List (Option Text) → Value
  other_value : Value

abbrev pub MapClaims : Type 0
MapClaims = List (Text × Value)

-- The keys of a Go map: the first pair with the key counts.
abbrev pub lookup {ℓ} : {A : Type ℓ} → Text → List (Text × A) → Option A
lookup key [] = none
lookup key (p ∷ m) = let rest = lookup key m in if text_eq p.0 key then some p.1 else rest

pub record Token : Type 0 where
  pub alg : Text
  pub kid_header : Option Value
  pub claims : MapClaims

-- What jwt.go reports: a parse that failed with the library's or keyFor's error, and its own errors.
pub data JwtError : Type 0 where
  not_rsa kid_not_string same_key : JwtError
  unknown_kid : Text → JwtError
  parse_failed : Text → JwtError
  wrong_class : Text → Text → JwtError
  load_failed : Text → JwtError

-- A public key verifies what its private key signs. `parse` is ParseWithClaims with the options that
-- Validate gives: the algorithms, the issuer, the audience, an exp that is there, and the leeway.
pub record Jwt : Type 0 where
  pub base64url : Text → Text
  pub sha256 : Text → Text
  pub sign : PrivateKey → Token → Result Text Text
  pub parse :
      List Text
      → Text
      → Text
      → Duration
      → Time
      → (Token → Result PublicKey JwtError)
      → Text
      → Result Token JwtError

-- Kid
unfoldable pub kid : Jwt → PublicKey → Text
kid j key = j.base64url (
    j.sha256 (
      codes "{\"e\":\""
      ++ j.base64url key.exponent
      ++ codes "\",\"kty\":\"RSA\",\"n\":\""
      ++ j.base64url key.modulus
      ++ codes "\"}"))

-- defaultLeeway
abbrev pub default_leeway : Duration
default_leeway = pos (30 * 1000000000)

-- rs256Alg
abbrev pub rs256 : Text
rs256 = codes "RS256"

-- JWTService
pub record JwtService : Type 0 where
  pub private_key : PrivateKey
  pub public_key : PublicKey
  pub issuer : Text
  pub audience : Text
  pub leeway : Duration
  pub signing_kid : Text
  pub verification_keys : List (Text × PublicKey)

abbrev pub build : Jwt → PrivateKey → PublicKey → Text → Text → Duration → JwtService
build j priv pub_key issuer audience leeway = record {
  private_key = priv;
  public_key = pub_key;
  issuer = issuer;
  audience = audience;
  leeway = if leb_ℤ leeway (pos 0) then default_leeway else leeway;
  signing_kid = kid j pub_key;
  verification_keys = (kid j pub_key, pub_key) ∷ [];
}

-- NewJWTService
abbrev pub new_jwt_service :
    Jwt
    → Result PrivateKey JwtError
    → Result PublicKey JwtError
    → Text
    → Text
    → Duration
    → Result JwtService JwtError
new_jwt_service j (err e) _ issuer audience leeway = err e
new_jwt_service j (ok priv) (err e) issuer audience leeway = err e
new_jwt_service j (ok priv) (ok key) issuer audience leeway =
    ok (build j priv key issuer audience leeway)

-- WithPreviousKey: the service after it, and its error.
unfoldable pub with_previous_key :
    Jwt → JwtService → Result PublicKey JwtError → JwtService × Option JwtError
with_previous_key j s (err e) = (s, some e)
with_previous_key j s (ok key) =
    if text_eq (kid j key) s.signing_kid
    then (s, some same_key)
    else (record s { verification_keys = (kid j key, key) ∷ s.verification_keys }, none)

-- Time.Unix, which rounds down.
abbrev pub unix : Time → ℤ
unix (pos n) = pos (n / 1000000000)
unix (negsuc n) = negsuc (n / 1000000000)

abbrev pub kid_value : Text → Option Value
kid_value [] = none
kid_value (b ∷ s) = some (text (b ∷ s))

-- sign
unfoldable pub sign : Jwt → JwtService → MapClaims → Result Text Text
sign j s claims =
    j.sign s.private_key
      (record { alg = rs256; kid_header = kid_value s.signing_kid; claims = claims })

-- The texts of the Class constants.
abbrev pub class_text : Class → Text
class_text access = codes "access"
class_text mfa = codes "mfa"
class_text id = codes "id"
class_text (other_class s) = s

abbrev pub class_of : Text → Class
class_of s =
    if text_eq s (codes "access")
    then access
    else if text_eq s (codes "mfa")
    then mfa
    else if text_eq s (codes "id")
    then id
    else other_class s

-- The claims of IssueAccessToken.
abbrev pub access_claims : Uuids → JwtService → User → Duration → Time → MapClaims
access_claims uu s user ttl now =
    (codes "sub", text (uu.to_text user.id))
    ∷ (codes "email", text user.email)
    ∷ (codes "name", text user.name)
    ∷ (codes "scope", text (codes "access"))
    ∷ (codes "cls", text (class_text access))
    ∷ (codes "iss", text s.issuer)
    ∷ (codes "aud", text s.audience)
    ∷ (codes "iat", number (unix now))
    ∷ (codes "exp", number (unix (now +ℤ ttl)))
    ∷ []

-- IssueAccessToken
unfoldable pub issue_access_token :
    Jwt → Uuids → JwtService → User → Duration → Time → Result Text Text
issue_access_token j uu s user ttl now = sign j s (access_claims uu s user ttl now)

-- The claims of IssueMFAToken.
abbrev pub mfa_claims : Uuids → JwtService → User → Time → MapClaims
mfa_claims uu s user now =
    (codes "sub", text (uu.to_text user.id))
    ∷ (codes "scope", text (codes "mfa"))
    ∷ (codes "cls", text (class_text mfa))
    ∷ (codes "iss", text s.issuer)
    ∷ (codes "aud", text s.audience)
    ∷ (codes "iat", number (unix now))
    ∷ (codes "exp", number (unix (now +ℤ pos (5 * 60 * 1000000000))))
    ∷ []

-- IssueMFAToken
unfoldable pub issue_mfa_token : Jwt → Uuids → JwtService → User → Time → Result Text Text
issue_mfa_token j uu s user now = sign j s (mfa_claims uu s user now)

-- The claims of IssueIDToken.
abbrev pub id_claims : Uuids → JwtService → User → Text → Time → MapClaims
id_claims uu s user client_id now =
    (codes "sub", text (uu.to_text user.id))
    ∷ (codes "email", text user.email)
    ∷ (codes "name", text user.name)
    ∷ (codes "aud", text client_id)
    ∷ (codes "iss", text s.issuer)
    ∷ (codes "cls", text (class_text id))
    ∷ (codes "iat", number (unix now))
    ∷ (codes "exp", number (unix (now +ℤ pos (15 * 60 * 1000000000))))
    ∷ (codes "scope", text (codes "openid profile email"))
    ∷ []

-- IssueIDToken
unfoldable pub issue_id_token : Jwt → Uuids → JwtService → User → Text → Time → Result Text Text
issue_id_token j uu s user client_id now = sign j s (id_claims uu s user client_id now)
