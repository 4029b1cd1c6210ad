-- ===== src/Identity/Jwt/Validation.antt =====
-- Validate of jwt.go, with its keyfunc and the readers of the claims.
use kopiochi.Prelude.{
  ℤ, pos, Option, none, some, List, [], ◌∷◌, map, Text, codes, text_eq, if◌then◌else◌,
}
use kopiochi.Notification.Domain.Types.{Result, ok, err}
use kopiochi.Identity.Domain.{Time}
use kopiochi.Identity.Application.Ports.{Class, Claims}
use kopiochi.Identity.Jwt.{
  PublicKey, Value, text, number, items, MapClaims, lookup, Token, JwtError, not_rsa,
  kid_not_string, unknown_kid, wrong_class, Jwt, rs256, JwtService, class_text, class_of,
}

-- getString
abbrev pub get_string : Option Value → Text
get_string (some (text s)) = s
get_string _ = []

abbrev pub or_blank : Option Text → Text
or_blank none = []
or_blank (some s) = s

-- getStringSlice
abbrev pub get_string_slice : Option Value → List Text
get_string_slice (some (items xs)) = map or_blank xs
get_string_slice _ = []

-- getInt64
abbrev pub get_int64 : Option Value → ℤ
get_int64 (some (number n)) = n
get_int64 _ = pos 0

abbrev pub known_key : Text → Option PublicKey → Result PublicKey JwtError
known_key name none = err (unknown_kid name)
known_key name (some key) = ok key

-- keyFor
abbrev pub key_for : JwtService → Option Value → Result PublicKey JwtError
key_for s none = ok s.public_key
key_for s (some (text name)) = known_key name (lookup name s.verification_keys)
key_for s (some _) = err kid_not_string

-- The keyfunc of Validate.
abbrev pub key_func : JwtService → Token → Result PublicKey JwtError
key_func s t = if text_eq t.alg rs256 then key_for s t.kid_header else err not_rsa

abbrev pub claims_of : MapClaims → Claims
claims_of m = record {
  subject = get_string (lookup (codes "sub") m);
  email = get_string (lookup (codes "email") m);
  name = get_string (lookup (codes "name") m);
  roles = get_string_slice (lookup (codes "roles") m);
  permissions = get_string_slice (lookup (codes "permissions") m);
  scope = get_string (lookup (codes "scope") m);
  class = class_of (get_string (lookup (codes "cls") m));
  issued_at = get_int64 (lookup (codes "iat") m);
  expires_at = get_int64 (lookup (codes "exp") m);
}

abbrev pub of_class : Class → Result Token JwtError → Result Claims JwtError
of_class want (err e) = err e
of_class want (ok t) =
    let got = get_string (lookup (codes "cls") t.claims) in
    if text_eq got (class_text want)
    then ok (claims_of t.claims)
    else err (wrong_class got (class_text want))

-- Validate
unfoldable pub validate : Jwt → JwtService → Text → Class → Time → Result Claims JwtError
validate j s token want now =
    of_class want (j.parse (rs256 ∷ []) s.issuer s.audience s.leeway now (key_func s) token)
