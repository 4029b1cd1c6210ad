-- ===== src/Platform/DbErrors.antt =====
-- internal/db/errors.go. A Go error is the tree that errors.Is and errors.As walk.
pub mod Classes
use kopiochi.Prelude.{
  ℕ, Bool, true, false, ◌||◌, Option, none, some, Text, codes, text_eq, if◌then◌else◌,
}

-- ErrNotFound, ErrConflict, ErrInvalidRef, ErrNotNull, ErrCheckViolation, ErrSerialization
pub data Sentinel : Type 0 where
  not_found conflict invalid_ref not_null check_violation serialization : Sentinel

-- An error: sql.ErrNoRows, a PgError with its code, a sentinel, an error that wraps none, one that
-- wraps another, and the join of two.
pub data Error : Type 0 where
  no_rows : Error
  pg_error : Text → Error
  sentinel : Sentinel → Error
  plain : Text → Error
  wraps : Text → Error → Error
  joins : Error → Error → Error

abbrev pub same_sentinel : Sentinel → Sentinel → Bool
same_sentinel not_found not_found = true
same_sentinel conflict conflict = true
same_sentinel invalid_ref invalid_ref = true
same_sentinel not_null not_null = true
same_sentinel check_violation check_violation = true
same_sentinel serialization serialization = true
same_sentinel _ _ = false

-- errors.Is with a sentinel.
unfoldable pub is_sentinel : Sentinel → Error → Bool
is_sentinel s (sentinel t) = same_sentinel t s
is_sentinel s (wraps msg e) = is_sentinel s e
is_sentinel s (joins e f) = is_sentinel s e || is_sentinel s f
is_sentinel s _ = false

-- errors.Is with sql.ErrNoRows.
unfoldable pub is_no_rows : Error → Bool
is_no_rows no_rows = true
is_no_rows (wraps msg e) = is_no_rows e
is_no_rows (joins e f) = is_no_rows e || is_no_rows f
is_no_rows _ = false

abbrev first_code : Option Text → Option Text → Option Text
first_code none o = o
first_code (some c) o = some c

-- errors.As with a *pgconn.PgError: the code of the first one.
unfoldable pub pg_code : Error → Option Text
pg_code (pg_error code) = some code
pg_code (wraps msg e) = pg_code e
pg_code (joins e f) = first_code (pg_code e) (pg_code f)
pg_code _ = none

-- joinSentinel
abbrev pub join_sentinel : Sentinel → Error → Error
join_sentinel s cause = joins (sentinel s) cause

-- The switch of Translate.
abbrev pub class_of_code : Text → Option Sentinel
class_of_code code =
    if text_eq code (codes "23505")
    then some conflict
    else if text_eq code (codes "23503")
    then some invalid_ref
    else if text_eq code (codes "23502")
    then some not_null
    else if text_eq code (codes "23514")
    then some check_violation
    else if text_eq code (codes "40001") || text_eq code (codes "40P01")
    then some serialization
    else none

abbrev pub joined : Option Sentinel → Error → Error
joined none e = e
joined (some s) e = join_sentinel s e

abbrev pub by_code : Option Text → Error → Error
by_code none e = e
by_code (some code) e = joined (class_of_code code) e

abbrev pub translate_error : Error → Error
translate_error e = if is_no_rows e then sentinel not_found else by_code (pg_code e) e

-- Translate
unfoldable pub translate : Option Error → Option Error
unfolding is_no_rows pg_code
translate none = none
translate (some e) = some (translate_error e)

-- IsRetryable
abbrev pub is_retryable : Error → Bool
is_retryable e = is_sentinel serialization e
