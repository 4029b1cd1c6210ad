-- ===== src/Identity/Examples/CodeCases.antt =====
-- The theorems on repository/mfa_store.go and repository/user_repo.go of modules/identity at two
-- backup codes and at one user.
use kopiochi.Prelude.{
  ℕ, pos, negsuc, some, ◌/◌, ◌*◌, ◌+◌, ◌≡◌, ◌≢◌, refl, arith, ◌⊎◌, false, true, none, [], ◌∷◌, Text,
  codes, text_eq, count_by,
}
use kopiochi.Notification.Domain.Types.{ok, err}
use kopiochi.Identity.BackupCodes.{BackupCodeRow, BackupCodes, find_and_use_backup_code}
use kopiochi.Identity.BackupCodes.Spending.{is_match, IsSpentOnce, find_and_use_backup_code_lem}
use kopiochi.Identity.Domain.{Time, User}
use kopiochi.Identity.Users.{UserError, find_by_id, save_user}
use kopiochi.Identity.Users.Saving.{save_user_lem}
use kopiochi.Identity.Examples.World.{plain_uuids, ann}

abbrev code_row : ℕ → Text → BackupCodeRow
code_row id hash = record { id = id; user_id = 42; code_hash = hash; used = false }

abbrev two_codes : BackupCodes
two_codes = code_row 1 (codes "aa") ∷ code_row 2 (codes "bb") ∷ []

find_and_use_backup_code_lem_example :
    let x =
      find_and_use_backup_code plain_uuids text_eq none none (42 ∷ []) (codes "bb") two_codes in
    ((x ≡ (two_codes, ok false)) × (count_by (is_match text_eq 42 (codes "bb")) two_codes ≡ 0))
    ⊎ ((x.1 ≡ ok true) × IsSpentOnce text_eq 42 (codes "bb") two_codes x.0)
find_and_use_backup_code_lem_example =
    find_and_use_backup_code_lem plain_uuids text_eq 42 (codes "bb") two_codes
      ((refl, tt), (tt, tt))

abbrev same_case : Text → Text
same_case s = s

ann_has_id : ann.id ≢ 0
ann_has_id = omega arith

other_id : ◌≢◌ {A = ℕ} 43 ann.id
other_id = omega arith

-- A user who is locked until 1 234 567 ns.
abbrev locked_ann : User
locked_ann = record ann { locked_until = some (pos 1234567) }

abbrev to_micros : Time → Time
to_micros (pos n) = pos (n / 1000 * 1000)
to_micros (negsuc n) = negsuc (n / 1000 * 1000 + 999)

save_user_lem_example :
    let x = save_user same_case to_micros none (codes "duplicate") 7 locked_ann [] in
    ((x.0 ≡ []) × (e : UserError) × (x.1 ≡ err e))
    ⊎ ((x.1 ≡ ok tt)
        × (find_by_id plain_uuids none (42 ∷ []) x.0
            ≡ ok (record locked_ann { locked_until = some (pos 1234000) }))
        × (find_by_id plain_uuids none (43 ∷ []) x.0 ≡ find_by_id plain_uuids none (43 ∷ []) []))
save_user_lem_example =
    save_user_lem plain_uuids same_case to_micros none (codes "duplicate") 7 locked_ann 43 []
      ann_has_id other_id
