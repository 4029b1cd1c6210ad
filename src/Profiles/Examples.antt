-- ===== src/Profiles/Examples.antt =====
-- The theorem on modules/user at one caller and the profile of another.
use kopiochi.Prelude.{pos, ◌≡◌, refl, none, some, [], ◌∷◌, Text, codes, Option}
use kopiochi.Notification.Domain.Types.{Uuid}
use kopiochi.Platform.Authn.{Context}
use kopiochi.Platform.Problem.{Route, json}
use kopiochi.Profiles.{User, Table, find_user, ensure_profile, get_profile}
use kopiochi.Profiles.Ensuring.{ensure_profile_lem}

abbrev by_first : Text → Option Uuid
by_first [] = none
by_first (b ∷ s) = some b

abbrev route : Route
route = record { path = codes "/users/me"; method = codes "POST"; request_id = codes "r" }

abbrev as_42 : Context
as_42 = some (record { subject = 42 ∷ []; scopes = none; extra = none })

abbrev one_profile : Table
one_profile = record { id = 7; created_at = pos 1; updated_at = pos 1 } ∷ []

ensure_profile_lem_example :
    (u : User) × (after : Table) × (u.id ≡ 42)
    × (ensure_profile by_first route none none (pos 5) as_42 one_profile ≡ (after, json 200 u))
    × (get_profile by_first route none as_42 after ≡ json 200 u)
    × (ensure_profile by_first route none none (pos 9) as_42 after ≡ (after, json 200 u))
    × (find_user 7 after ≡ find_user 7 one_profile)
ensure_profile_lem_example =
    ensure_profile_lem by_first route as_42 42 7 (pos 5) (pos 9) one_profile refl refl
