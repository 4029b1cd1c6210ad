-- ===== src/Notification/Application/Matrix.antt =====
-- GetPreferences and UpdatePreferences of modules/notification/application/service.go.
use kopiochi.Prelude.{
  ◌≡◌, refl, ap, ◌∙◌, ◌≢◌, inl, inr, Bool, true, false, ◌&&◌, Option, none, some, List, [], ◌∷◌,
  arith, Bool-cases, All, map, length, if◌then◌else◌,
}
use kopiochi.Notification.Domain.Types.{
  unknown_channel, unknown_category, Uuid, Time, Channel, email, inapp, webhook, Category, security,
  account, system, channels, valid_channel, valid_category, same_channel, same_category,
  DomainError, Result, ok, err,
}
use kopiochi.Notification.Domain.Preference.{Preference, allowed, new_preference}
use kopiochi.Notification.Domain.Filter.{IsLegal, allowed_protected}
use kopiochi.Notification.Domain.Backoff.{Floats}
use kopiochi.Notification.Application.Ports.{Fault, PreferenceView, Ports}
use kopiochi.Notification.Application.Service.{
  invalid, matrix_of, get_preferences, names_pair, validate, then_rest, after_upsert, if_all_valid,
  matrix_from, update_preferences,
}

-- The cell of a matrix for a pair.
unfoldable pub cell : Channel → Category → List PreferenceView → Option Bool
cell ch cat [] = none
cell ch cat (v ∷ vs) =
    let rest = cell ch cat vs in
    if same_channel v.channel ch && same_category v.category cat then some v.enabled else rest

matrix-cell :
    (prefs : List Preference) (ch : Channel) (cat : Category)
    → valid_channel ch ≡ true
    → valid_category cat ≡ true
    → cell ch cat (matrix_of prefs channels) ≡ some (allowed prefs ch cat)
unfolding cell
matrix-cell prefs (unknown_channel s) cat h k = cc
matrix-cell prefs email (unknown_category s) h k = cc
matrix-cell prefs inapp (unknown_category s) h k = cc
matrix-cell prefs webhook (unknown_category s) h k = cc
matrix-cell prefs email security h k = refl
matrix-cell prefs email account h k = refl
matrix-cell prefs email system h k = refl
matrix-cell prefs inapp security h k = refl
matrix-cell prefs inapp account h k = refl
matrix-cell prefs inapp system h k = refl
matrix-cell prefs webhook security h k = refl
matrix-cell prefs webhook account h k = refl
matrix-cell prefs webhook system h k = refl

module _ {W : Type 0} {fl : Floats} (ports : Ports W fl) where
  -- The matrix that GetPreferences returns has a cell for each of the nine pairs, with the answer
  -- that Allowed will give at enqueue time; so the protected pair reads as enabled, whatever rows
  -- are stored.
  pub get_preferences_effective :
      (w w' : W) (user : Uuid) (prefs : List Preference) (ch : Channel) (cat : Category)
      → ports.list_preferences w user ≡ (w', ok prefs)
      → valid_channel ch ≡ true
      → valid_category cat ≡ true
      → (m : List PreferenceView) × (get_preferences ports w user ≡ (w', ok m))
        × (length m ≡ 9)
        × (cell ch cat m ≡ some (allowed prefs ch cat))
        × (cell email security m ≡ some true)
  unfolding get_preferences
  get_preferences_effective w w' user prefs ch cat read h k = (
    matrix_of prefs channels,
    rw read,
    refl,
    matrix-cell prefs ch cat h k,
    matrix-cell prefs email security refl refl ∙ ap some (allowed_protected prefs),
  )

  after_upsert_valid :
      (user : Uuid) (x : W × Result (Unit {0}) Fault) (e : DomainError)
      → (after_upsert ports user x).1 ≢ err (invalid e)
  unfolding get_preferences
  after_upsert_valid user (w, err f) e h = cc
  after_upsert_valid user (w, ok done) e h = matrix_valid (ports.list_preferences w user) h
    where
      matrix_valid :
          (y : W × Result (List Preference) Fault) → (matrix_from ports y).1 ≡ err (invalid e) → ⊥
      matrix_valid (v, err f) k = cc
      matrix_valid (v, ok prefs) k = cc

  -- A request that UpdatePreferences refuses writes nothing at all, not even its legal part: the
  -- world is the one that the reading of the clock left.
  pub update_preferences_refused :
      (w : W) (user : Uuid) (updates : List PreferenceView) (e : DomainError)
      → (update_preferences ports w user updates).1 ≡ err (invalid e)
      → (update_preferences ports w user updates).0 ≡ (ports.now w).0
  unfolding update_preferences
  update_preferences_refused w user updates e h = go (validate user (ports.now w).1 [] updates) h
    where
      go :
          (r : Result (List Preference) DomainError)
          → (if_all_valid ports user (ports.now w).0 r).1 ≡ err (invalid e)
          → (if_all_valid ports user (ports.now w).0 r).0 ≡ (ports.now w).0
      go (err d) k = refl
      go (ok prefs) k = absurd (after_upsert_valid user (ports.upsert (ports.now w).0 prefs) e k)

-- No update names a pair that `seen` or an update before it names.
abbrev pub NoPairTwice : List PreferenceView → List PreferenceView → Type 0
NoPairTwice seen [] = Unit {0}
NoPairTwice seen (u ∷ us) =
    (names_pair u.channel u.category seen ≡ false) × NoPairTwice (u ∷ seen) us

-- The preference that an update asks for.
abbrev pub asked : Uuid → Time → PreferenceView → Preference
asked user now u = record {
  user_id = user;
  channel = u.channel;
  category = u.category;
  enabled = u.enabled;
  updated_at = now;
}

abbrev asked_all : Uuid → Time → List PreferenceView → List Preference
asked_all user now us = map (asked user now) us

new_preference_ok :
    (user : Uuid) (u : PreferenceView) (now : Time) (p : Preference)
    → new_preference user u.channel u.category u.enabled now ≡ ok p
    → (p ≡ asked user now u) × IsLegal (asked user now u)
unfolding new_preference
new_preference_ok user u now p h = ground arith

then_rest_ok :
    (r : Result Preference DomainError) (rest : Result (List Preference) DomainError)
    (ps : List Preference)
    → then_rest r rest ≡ ok ps
    → (p : Preference) × (qs : List Preference) × (r ≡ ok p) × (rest ≡ ok qs) × (ps ≡ p ∷ qs)
then_rest_ok (err e) rest ps h = cc
then_rest_ok (ok p) (err e) ps h = cc
then_rest_ok (ok p) (ok qs) ps h = (p, qs, refl, refl, ground arith)

-- What UpdatePreferences writes, if it writes: the preference of each update, in order, none of
-- which disables the protected pair, and no pair twice.
validate_ok :
    (user : Uuid) (now : Time) (seen us : List PreferenceView) (ps : List Preference)
    → validate user now seen us ≡ ok ps
    → (ps ≡ map (asked user now) us) × All IsLegal ps × NoPairTwice seen us
unfolding validate
validate_ok user now seen [] ps h = ground arith
validate_ok user now seen (u ∷ us) ps h = elim (Bool-cases (names_pair u.channel u.category seen)) [
  | inl dup ↦ absurd (ground arith)
  | inr fresh ↦
      let (p, qs, made, rest, e) = then_rest_ok _ _ ps (rw fresh at h) in
      let (same, legal) = new_preference_ok user u now p made in
      let (others, legals, distinct) = validate_ok user now (u ∷ seen) us qs rest in
      (ground arith, rw e (rw same legal, legals), (fresh, distinct))
]
