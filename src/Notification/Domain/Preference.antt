-- ===== src/Notification/Domain/Preference.antt =====
-- modules/notification/domain/preference.go: one user's decision about a channel and a category.
use kopiochi.Prelude.{Bool, true, not, ◌&&◌, Option, none, some, List, [], ◌∷◌, ◌==◌, if◌then◌else◌}
use kopiochi.Notification.Domain.Types.{
  Uuid, Time, Channel, email, Category, security, same_channel, same_category, valid_channel,
  valid_category, DomainError, invalid_preference, preference_protected, Result, ok, err,
}

pub record Preference : Type 0 where
  pub user_id : Uuid
  pub channel : Channel
  pub category : Category
  pub enabled : Bool
  pub updated_at : Time

unfoldable pub protected : Channel → Category → Bool
protected ch cat = same_channel ch email && same_category cat security

-- NewPreference, its guards in the source's order.
unfoldable pub new_preference :
    Uuid → Channel → Category → Bool → Time → Result Preference DomainError
unfolding protected
new_preference user ch cat enabled now =
    if user == 0
    then err invalid_preference
    else if not (valid_channel ch)
    then err invalid_preference
    else if not (valid_category cat)
    then err invalid_preference
    else if not enabled && protected ch cat
    then err preference_protected
    else ok (record {
      user_id = user;
      channel = ch;
      category = cat;
      enabled = enabled;
      updated_at = now;
    })

-- SetEnabled
unfoldable pub set_enabled : Preference → Bool → Time → Preference × Option DomainError
unfolding protected
set_enabled p enabled now =
    if not enabled && protected p.channel p.category
    then (p, some preference_protected)
    else (record p { enabled = enabled; updated_at = now }, none)

-- Is the row about this pair?
abbrev pub is_about : Channel → Category → Preference → Bool
is_about ch cat p = same_channel p.channel ch && same_category p.category cat

-- The loop of Allowed.
unfoldable pub stored : List Preference → Channel → Category → Bool
stored [] ch cat = true
stored (p ∷ ps) ch cat = if is_about ch cat p then p.enabled else stored ps ch cat

-- Allowed
unfoldable pub allowed : List Preference → Channel → Category → Bool
unfolding protected stored
allowed prefs ch cat = if protected ch cat then true else stored prefs ch cat
