-- ===== src/Notification/Repository/Preferences.antt =====
-- modules/notification/infrastructure/persistence/repository/preference_repo.go over the table of
-- preferences, whose primary key is (user_id, channel, category). `link` is the error that the
-- database answers with, if any.
use kopiochi.Prelude.{
  Bool, true, false, ◌&&◌, ◌||◌, Option, none, some, List, [], ◌∷◌, Text, ◌==◌, if◌then◌else◌,
  where_,
}
use kopiochi.Notification.Domain.Types.{Uuid, same_channel, same_category, Result, ok, err}
use kopiochi.Notification.Domain.Preference.{Preference}

abbrev pub PreferenceTable : Type 0
PreferenceTable = List Preference

abbrev pub same_key : Preference → Preference → Bool
same_key p q =
    q.user_id == p.user_id
    && (same_channel q.channel p.channel && same_category q.category p.category)

-- INSERT ... ON CONFLICT (user_id, channel, category) DO UPDATE SET enabled, updated_at
unfoldable pub upsert_row : Preference → PreferenceTable → PreferenceTable
upsert_row p [] = p ∷ []
upsert_row p (q ∷ t) =
    let rest = upsert_row p t in
    if same_key p q
    then record q { enabled = p.enabled; updated_at = p.updated_at } ∷ t
    else q ∷ rest

unfoldable pub upsert_rows : List Preference → PreferenceTable → PreferenceTable
unfolding upsert_row
upsert_rows [] t = t
upsert_rows (p ∷ ps) t = upsert_rows ps (upsert_row p t)

-- Does one key occur twice? ON CONFLICT DO UPDATE refuses to write one row a second time.
unfoldable pub key_twice : List Preference → Bool
key_twice [] = false
key_twice (p ∷ ps) = let rest = key_twice ps in if has_same p ps then true else rest
  where
    has_same : Preference → List Preference → Bool
    has_same p [] = false
    has_same p (q ∷ qs) = same_key p q || has_same p qs

-- Upsert: one statement, and none at all for an empty slice. `conflict` is the database's answer to
-- a statement that holds one key twice.
unfoldable pub upsert :
    Option Text
    → Text
    → List Preference
    → PreferenceTable
    → PreferenceTable × Result (Unit {0}) Text
unfolding upsert_rows key_twice
upsert link conflict [] t = (t, ok tt)
upsert (some e) conflict (p ∷ ps) t = (t, err e)
upsert none conflict (p ∷ ps) t =
    if key_twice (p ∷ ps) then (t, err conflict) else (upsert_rows (p ∷ ps) t, ok tt)

-- ListForUser. The order of the answer (by the columns' text) is left open: the key is unique, and
-- the caller looks for one pair.
unfoldable pub list_for_user : Option Text → Uuid → PreferenceTable → Result (List Preference) Text
list_for_user (some e) user t = err e
list_for_user none user t = ok (where_ (λ p. p.user_id == user) t)
