-- ===== src/Platform/DbErrors/Classes.antt =====
-- What callers learn from an error that Translate of internal/db/errors.go has classified.
use kopiochi.Prelude.{
  ◌≡◌, ◌↔◌, ◌⊎◌, inl, inr, refl, ap, Bool, true, false, Option, none, some, Text, arith, codes,
  text_eq→eq,
}
use kopiochi.Platform.DbErrors.{
  Sentinel, conflict, serialization, Error, same_sentinel, is_sentinel, is_no_rows, pg_code,
  class_of_code, joined, by_code, translate_error, is_retryable,
}

abbrev has_class : Sentinel → Option Sentinel → Bool
has_class s none = false
has_class s (some t) = same_sentinel t s

joined-is_sentinel :
    (s : Sentinel) (c : Option Sentinel) (e : Error)
    → is_sentinel s e ≡ false
    → is_sentinel s (joined c e) ≡ has_class s c
unfolding is_sentinel
joined-is_sentinel s none e h = h
joined-is_sentinel s (some t) e h = ground arith

joined-pg_code : (c : Option Sentinel) (e : Error) → pg_code (joined c e) ≡ pg_code e
unfolding pg_code
joined-pg_code none e = refl
joined-pg_code (some t) e = refl

serialization_codes :
    (c : Text)
    → has_class serialization (class_of_code c) ≡ true
    → (c ≡ codes "40001") ⊎ (c ≡ codes "40P01")
serialization_codes c h = ground (arith, text_eq→eq c (codes "40001"), text_eq→eq c (codes "40P01"))

conflict_code : (c : Text) → has_class conflict (class_of_code c) ≡ true → c ≡ codes "23505"
conflict_code c h = ground (arith, text_eq→eq c (codes "23505"))

abbrev code_class : Sentinel → Option Text → Bool
code_class s none = false
code_class s (some c) = has_class s (class_of_code c)

by_code-is_sentinel :
    (s : Sentinel) (o : Option Text) (e : Error)
    → is_sentinel s e ≡ false
    → is_sentinel s (by_code o e) ≡ code_class s o
by_code-is_sentinel s none e h = h
by_code-is_sentinel s (some c) e h = joined-is_sentinel s (class_of_code c) e h

by_code-pg_code : (o : Option Text) (e : Error) → pg_code (by_code o e) ≡ pg_code e
by_code-pg_code none e = refl
by_code-pg_code (some c) e = joined-pg_code (class_of_code c) e

conflict_iff : (o : Option Text) → (code_class conflict o ≡ true) ↔ (o ≡ some (codes "23505"))
conflict_iff none = (λ h. cc, λ h. cc)
conflict_iff (some c) = (λ h. ap some (conflict_code c h), λ h. ap (code_class conflict) h)

serialization_iff :
    (o : Option Text)
    → (code_class serialization o ≡ true)
      ↔ ((o ≡ some (codes "40001")) ⊎ (o ≡ some (codes "40P01")))
serialization_iff none = (λ h. cc, λ h. elim h [ inl e ↦ cc | inr e ↦ cc ])
serialization_iff (some c) = (
  λ h. elim (serialization_codes c h) [ inl e ↦ inl (ap some e) | inr e ↦ inr (ap some e) ],
  λ h. elim h [ inl e ↦ ap (code_class serialization) e | inr e ↦ ap (code_class serialization) e ],
)

-- A driver error that is not sql.ErrNoRows and has no sentinel of this package in it: after Translate
-- the error of Postgres in it is found as before; it is a conflict exactly for the code 23505, and
-- IsRetryable exactly for the codes 40001 and 40P01.
pub translate_lem :
    (e : Error)
    → is_no_rows e ≡ false
    → is_sentinel conflict e ≡ false
    → is_sentinel serialization e ≡ false
    → (pg_code (translate_error e) ≡ pg_code e)
      × ((is_sentinel conflict (translate_error e) ≡ true) ↔ (pg_code e ≡ some (codes "23505")))
      × ((is_retryable (translate_error e) ≡ true)
          ↔ ((pg_code e ≡ some (codes "40001")) ⊎ (pg_code e ≡ some (codes "40P01"))))
translate_lem e rows no_conflict no_serialization = rw rows (
  by_code-pg_code (pg_code e) e,
  rw (by_code-is_sentinel conflict (pg_code e) e no_conflict) (conflict_iff (pg_code e)),
  rw (by_code-is_sentinel serialization (pg_code e) e no_serialization)
      (serialization_iff (pg_code e)),
)
