-- ===== src/Identity/Examples/TokenCases.antt =====
-- The theorems on the lockout and on the table of refresh tokens of modules/identity.
use mathlib.Core.List.{Memᴰ}
use kopiochi.Prelude.{
  pos, ◌≤◌, ◌≡◌, refl, ◌⊎◌, ◌+ℤ◌, false, none, some, [], ◌∷◌, Text, codes, arith, count_by, leb_ℤ,
  if◌then◌else◌,
}
use kopiochi.Notification.Domain.Types.{ok, err}
use kopiochi.Identity.Domain.{Uuid, RefreshToken, reset_failed_logins}
use kopiochi.Identity.Domain.Lockout.{fail_all, lockout_threshold}
use kopiochi.Identity.Tokens.{
  RefreshTokenRow, Tokens, TokenError, insert, revoke_all_for_user, store, find_valid,
  from_refresh_row, to_refresh_row, is_live,
}
use kopiochi.Identity.Tokens.Exchange.{rotate}
use kopiochi.Identity.Tokens.Lineage.{HashesUnique}
use kopiochi.Identity.Tokens.Rotation.{no_faults, IsRowOf, IsRotated, rotate_atomic}
use kopiochi.Identity.Tokens.Once.{IsRefused, rotate_once}
use kopiochi.Identity.Tokens.Sessions.{
  Sessions, logs_in, starts_refresh, rotates, logs_out, ◌⟶*◌, start, step,
}
use kopiochi.Identity.Tokens.Invariant.{one_live_token}
use kopiochi.Identity.Examples.World.{plain_uuids, ann, chain}

-- Three failures with a limit of three.
lockout_threshold_example :
    fail_all (pos 3) (pos 60) (reset_failed_logins ann) (pos 1 ∷ pos 5 ∷ pos 9 ∷ []) ≡ record ann {
      failed_login_attempts = pos 3;
      locked_until = if leb_ℤ (pos 3) (pos 3) then some (pos 9 +ℤ pos 60) else none;
    }
lockout_threshold_example =
    lockout_threshold (pos 3) (pos 60) ann (pos 1) (pos 5 ∷ pos 9 ∷ []) (omega arith)

pub chain-HashesUnique : HashesUnique chain
chain-HashesUnique = (refl, (refl, tt))

abbrev token : Text → Text → RefreshToken
token hash family = record {
  user_id = 42 ∷ [];
  token_hash = hash;
  expires_at = pos 9000;
  family_id = family;
  used = false;
  revoked = false;
}

rotate_atomic_example :
    let x =
      rotate plain_uuids no_faults
        (codes "23505")
        3
        8
        (pos 30)
        (codes "b")
        (token (codes "c") (9 ∷ []))
        chain in
    ((x.0 ≡ chain) × (e : TokenError) × (x.1 ≡ err e))
    ⊎ ((x.1 ≡ ok tt)
        × (row : RefreshTokenRow) × IsRowOf plain_uuids 8 (token (codes "c") (9 ∷ [])) row
        × IsRotated 3 (pos 30) (codes "b") row chain x.0)
rotate_atomic_example =
    rotate_atomic plain_uuids no_faults (codes "23505") 3 8 (pos 30) (codes "b")
      (token (codes "c") (9 ∷ [])) chain

abbrev other_row : RefreshTokenRow
other_row = record {
  id = 0;
  user_id = 42;
  token_hash = codes "d";
  expires_at = pos 9000;
  revoked = false;
  family_id = 9;
  used_at = none;
  reuse_detected_at = none;
}

abbrev rotated_chain : Tokens
rotated_chain =
    (rotate plain_uuids no_faults (codes "23505") 3 8 (pos 30) (codes "b")
      (token (codes "c") (9 ∷ [])) chain).0

-- The user logs out, and the token "b" is presented again.
abbrev after_logout : Sessions
after_logout = record {
  tokens = (revoke_all_for_user plain_uuids none (42 ∷ []) rotated_chain).0;
  reads = [];
}

rotate_once_example : IsRefused plain_uuids no_faults after_logout.tokens (
    rotate plain_uuids no_faults
      (codes "23505")
      4
      7
      (pos 31)
      (codes "b")
      (token (codes "d") (9 ∷ []))
      after_logout.tokens)
rotate_once_example =
    rotate_once plain_uuids no_faults (codes "23505") 3 8 (pos 30) (codes "b")
      (token (codes "c") (9 ∷ [])) (record { tokens = chain; reads = [] }) after_logout no_faults
      (codes "23505") 4 7 (pos 31) (token (codes "d") (9 ∷ [])) other_row
      (unfold rotate insert to_refresh_row in refl) (step start (logs_out none (42 ∷ [])))
      (unfold to_refresh_row in refl)

-- A login, a refresh that reads its token, and two rotations of what was read.
abbrev nobody : Sessions
nobody = record { tokens = []; reads = [] }

abbrev logged_in : Sessions
logged_in = record nobody {
  tokens = (store plain_uuids none (codes "23505") 1 9 (token (codes "a") []) []).0;
}

abbrev reading : Sessions
reading = record logged_in { reads = (codes "a", token (codes "a") (9 ∷ [])) ∷ [] }

abbrev rotated_by : Text → Sessions → Sessions
rotated_by hash s = record s {
  tokens =
      (rotate plain_uuids no_faults (codes "23505") 2 8 (pos 30) (codes "a") (token hash (9 ∷ []))
        s.tokens).0;
}

run_of_two : ◌⟶*◌ plain_uuids nobody (rotated_by (codes "c") (rotated_by (codes "b") reading))
unfolding store insert to_refresh_row find_valid from_refresh_row
run_of_two =
    step
      (step
        (step (step start (logs_in none (codes "23505") 1 9 (token (codes "a") []) refl tt))
          (starts_refresh (codes "a") (pos 20) (token (codes "a") (9 ∷ [])) refl))
        (rotates (codes "a") (token (codes "a") (9 ∷ [])) (token (codes "b") (9 ∷ [])) no_faults
          (codes "23505") 2 8 (pos 30) (Memᴰ.head refl) refl))
      (rotates (codes "a") (token (codes "a") (9 ∷ [])) (token (codes "c") (9 ∷ [])) no_faults
        (codes "23505") 2 8 (pos 30) (Memᴰ.head refl) refl)

one_live_token_example :
    ((family : Uuid)
      → count_by (is_live family) (rotated_by (codes "c") (rotated_by (codes "b") reading)).tokens
        ≤ 1)
    × HashesUnique (rotated_by (codes "c") (rotated_by (codes "b") reading)).tokens
one_live_token_example =
    one_live_token plain_uuids (rotated_by (codes "c") (rotated_by (codes "b") reading)) run_of_two
