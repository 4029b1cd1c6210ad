-- ===== src/Identity/Examples/JwtCases.antt =====
-- The theorems on token/jwt.go of modules/identity over a library that signs one token.
use kopiochi.Prelude.{
  pos, negsuc, ◌≡◌, ◌≢◌, refl, ap, sym, ◌∙◌, ◌+ℤ◌, ◌⊎◌, inl, inr, ◌&&◌, Bool, true, false, Option,
  none, some, [], ◌∷◌, Text, arith, codes, text_eq, text_eq→eq, ◌==◌, ==_iff, Bool-cases,
}
use kopiochi.Notification.Domain.Types.{Result, ok, err}
use kopiochi.Identity.Application.Ports.{access, mfa}
use kopiochi.Identity.Jwt.{
  PublicKey, PrivateKey, Value, text, number, items, other_value, MapClaims, Token, JwtError,
  wrong_class, same_key, Jwt, kid, kid_value, rs256, JwtService, build, with_previous_key,
  access_claims, sign, issue_access_token,
}
use kopiochi.Identity.Jwt.Validation.{validate}
use kopiochi.Identity.Jwt.Issuing.{
  ParsesSigned, Accepts, issue_access_token_lem, with_previous_key_lem,
}
use kopiochi.Identity.Examples.World.{plain_uuids, ann}

unfoldable pub same_value : Value → Value → Bool
same_value (text a) (text b) = text_eq a b
same_value (number (pos m)) (number (pos n)) = m == n
same_value _ _ = false

same_value→eq : (v w : Value) → same_value v w ≡ true → v ≡ w
unfolding same_value
same_value→eq (text a) (text b) h = ap text (text_eq→eq a b h)
same_value→eq (number (pos m)) (number (pos n)) h = ap (λ k. number (pos k)) ((==_iff m n).0 h)
same_value→eq (text a) (number n) h = ground arith
same_value→eq (text a) (items xs) h = ground arith
same_value→eq (text a) other_value h = ground arith
same_value→eq (number (pos m)) (number (negsuc n)) h = ground arith
same_value→eq (number (negsuc m)) (number n) h = ground arith
same_value→eq (number (pos m)) (text b) h = ground arith
same_value→eq (number (pos m)) (items xs) h = ground arith
same_value→eq (number (pos m)) other_value h = ground arith
same_value→eq (number (negsuc m)) (text b) h = ground arith
same_value→eq (number (negsuc m)) (items xs) h = ground arith
same_value→eq (number (negsuc m)) other_value h = ground arith
same_value→eq (items xs) w h = ground arith
same_value→eq other_value w h = ground arith

unfoldable pub same_claims : MapClaims → MapClaims → Bool
unfolding same_value
same_claims [] [] = true
same_claims (p ∷ m) (q ∷ n) = text_eq p.0 q.0 && (same_value p.1 q.1 && same_claims m n)
same_claims _ _ = false

both : (a b : Bool) → (a && b) ≡ true → (a ≡ true) × (b ≡ true)
both a b h = ground arith

same_claims→eq : (m n : MapClaims) → same_claims m n ≡ true → m ≡ n
unfolding same_claims same_value
same_claims→eq [] [] h = refl
same_claims→eq [] (q ∷ n) h = ground arith
same_claims→eq (p ∷ m) [] h = ground arith
same_claims→eq (p ∷ m) (q ∷ n) h =
    let x = both (text_eq p.0 q.0) (same_value p.1 q.1 && same_claims m n) h in
    let y = both (same_value p.1 q.1) (same_claims m n) x.1 in
    let key = text_eq→eq p.0 q.0 x.0 in
    let value = same_value→eq p.1 q.1 y.0 in let rest = same_claims→eq m n y.1 in cc

unfoldable pub same_kid : Option Value → Option Value → Bool
unfolding same_value
same_kid (some v) (some w) = same_value v w
same_kid _ _ = false

same_kid→eq : (a b : Option Value) → same_kid a b ≡ true → a ≡ b
unfolding same_kid same_value
same_kid→eq (some v) (some w) h = ap some (same_value→eq v w h)
same_kid→eq (some v) none h = ground arith
same_kid→eq none b h = ground arith

unfoldable pub same_token : Token → Token → Bool
unfolding same_kid same_claims
same_token t u =
    text_eq t.alg u.alg && (same_kid t.kid_header u.kid_header && same_claims t.claims u.claims)

pub same_token→eq : (t u : Token) → same_token t u ≡ true → t ≡ u
unfolding same_token same_kid same_claims
same_token→eq t u h =
    let x =
      both (text_eq t.alg u.alg)
        (same_kid t.kid_header u.kid_header && same_claims t.claims u.claims) h in
    let y = both (same_kid t.kid_header u.kid_header) (same_claims t.claims u.claims) x.1 in
    let alg = text_eq→eq t.alg u.alg x.0 in
    let header = same_kid→eq t.kid_header u.kid_header y.0 in
    let claims = same_claims→eq t.claims u.claims y.1 in cc

abbrev sealed : Bool → Result Text Text
sealed true = ok (codes "T")
sealed false = err (codes "another token")

abbrev pub if_keyed : Token → Result PublicKey JwtError → Result Token JwtError
if_keyed t (err e) = err e
if_keyed t (ok key) = ok t

-- A library that signs the token `t` only, and whose hash and encoding leave the text as it is.
abbrev library_for : Token → Jwt
library_for t = record {
  base64url = λ s. s;
  sha256 = λ s. s;
  sign = λ priv u. sealed (same_token u t);
  parse = λ algs issuer audience leeway now f s. if_keyed t (f t);
}

abbrev pub key_of : PrivateKey → PublicKey
key_of n = record { modulus = n ∷ []; exponent = 3 ∷ [] }

abbrev pub library_for_none : Jwt
library_for_none = library_for (record { alg = []; kid_header = none; claims = [] })

abbrev signer : JwtService
signer = build library_for_none 5 (key_of 5) (codes "me") (codes "you") (pos 0)

abbrev ann_token : Token
ann_token = record {
  alg = rs256;
  kid_header = kid_value (kid library_for_none (key_of 5));
  claims = access_claims plain_uuids signer ann (pos 3000000000) (pos 1000000000);
}

signs : (t u : Token) (s : Text) → sealed (same_token u t) ≡ ok s → u ≡ t
signs t u s h = elim (Bool-cases (same_token u t)) [
  | inl same ↦ same_token→eq u t same
  | inr differs ↦ ground arith
]

library_for-ParsesSigned : (t : Token) → ParsesSigned (library_for t) key_of
unfolding ParsesSigned
library_for-ParsesSigned t priv u s issuer audience leeway now f e signed key alg iss aud exp
      fresh =
    let same = signs t u s signed in ap (if_keyed t) (ap f (sym same) ∙ key) ∙ ap ok (sym same)

mfa_ne : codes "mfa" ≢ codes "access"
mfa_ne e = cc

signer-Accepts : Accepts signer signer
unfolding kid
signer-Accepts = record { issuer = refl; audience = refl; key = refl }

signed :
    issue_access_token
      (library_for ann_token)
      plain_uuids
      signer
      ann
      (pos 3000000000)
      (pos 1000000000)
    ≡ ok (codes "T")
unfolding issue_access_token sign same_token same_claims same_kid same_value kid ◌+ℤ◌
signed = refl

issue_access_token_lem_example :
    (validate (library_for ann_token) signer (codes "T") access (pos 2000000000)
      ≡ ok (record {
        subject = 42 ∷ [];
        email = codes "ann@example.org";
        name = codes "Ann";
        roles = [];
        permissions = [];
        scope = codes "access";
        class = access;
        issued_at = pos 1;
        expires_at = pos 4;
      }))
    × (validate (library_for ann_token) signer (codes "T") mfa (pos 2000000000)
        ≡ err (wrong_class (codes "access") (codes "mfa")))
unfolding ◌+ℤ◌
issue_access_token_lem_example =
    issue_access_token_lem (library_for ann_token) key_of plain_uuids signer signer ann
      (pos 3000000000) (pos 1000000000) (pos 2000000000) (codes "T") mfa
      (library_for-ParsesSigned ann_token) refl signer-Accepts signed (omega arith) mfa_ne

kid_ne : (key : PublicKey) → kid library_for_none key ≢ []
unfolding kid
kid_ne key e = cc

with_previous_key_lem_example :
    let new = build library_for_none 5 (key_of 5) (codes "me") (codes "you") (pos 0) in
    let old = build library_for_none 4 (key_of 4) (codes "me") (codes "you") (pos 7) in
    let x = with_previous_key library_for_none new (ok (key_of 4)) in
    ((kid library_for_none (key_of 4) ≡ kid library_for_none (key_of 5))
      × (x ≡ (new, some same_key)))
    ⊎ ((kid library_for_none (key_of 4) ≢ kid library_for_none (key_of 5))
        × (x.1 ≡ none)
        × Accepts x.0 old
        × Accepts x.0 new
        × (x.0.private_key ≡ 5)
        × (x.0.signing_kid ≡ kid library_for_none (key_of 5)))
with_previous_key_lem_example =
    with_previous_key_lem library_for_none 5 4 (key_of 5) (key_of 4) (codes "me") (codes "you")
      (pos 0) (pos 7) kid_ne
