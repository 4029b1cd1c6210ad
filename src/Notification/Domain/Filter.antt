-- ===== src/Notification/Domain/Filter.antt =====
-- What the preferences of modules/notification/domain/preference.go decide, and that no sequence of
-- their operations yields a row that disables the protected pair.
use kopiochi.Prelude.{
  ◌≡◌, refl, ◌↔◌, ◌⊎◌, inl, inr, Bool, true, false, not, ◌&&◌, List, [], ◌∷◌, ◌++◌, arith, All,
  Bool-cases,
}
use kopiochi.Notification.Domain.Types.{Uuid, Time, Channel, email, Category, security, ok}
use kopiochi.Notification.Domain.Preference.{
  Preference, protected, new_preference, set_enabled, is_about, stored, allowed,
}

-- The first stored row about the pair is off.
abbrev pub SwitchedOff : List Preference → Channel → Category → Type 0
SwitchedOff prefs ch cat =
    (before : List Preference) × (p : Preference) × (after : List Preference) × (prefs
      ≡ before ++ p ∷ after)
    × All (λ q. is_about ch cat q ≡ false) before
    × (is_about ch cat p ≡ true)
    × (p.enabled ≡ false)

stored-SwitchedOff :
    (prefs : List Preference) (ch : Channel) (cat : Category)
    → stored prefs ch cat ≡ false
    → SwitchedOff prefs ch cat
unfolding stored
stored-SwitchedOff [] ch cat h = cc
stored-SwitchedOff (p ∷ ps) ch cat h = elim (Bool-cases (is_about ch cat p)) [
  | inl hit ↦ ([], p, ps, refl, tt, hit, ground arith)
  | inr miss ↦
      let (before, q, after, split, others, hit, off) =
        stored-SwitchedOff ps ch cat (ground arith) in
      (p ∷ before, q, after, ground arith, (miss, others), hit, off)
]

SwitchedOff-stored :
    (before : List Preference) (p : Preference) (after : List Preference) (ch : Channel)
    (cat : Category)
    → All (λ q. is_about ch cat q ≡ false) before
    → is_about ch cat p ≡ true
    → p.enabled ≡ false
    → stored (before ++ p ∷ after) ch cat ≡ false
unfolding stored
SwitchedOff-stored [] p after ch cat others hit off = ground arith
SwitchedOff-stored (q ∷ before) p after ch cat others hit off =
    ground (arith, SwitchedOff-stored before p after ch cat others.1 hit off)

-- A notification is held back exactly when its pair is not protected and the first stored row
-- about the pair is off. So a pair with no row is allowed, and the protected pair always is.
allowed_iff :
    (prefs : List Preference) (ch : Channel) (cat : Category)
    → (allowed prefs ch cat ≡ false) ↔ ((protected ch cat ≡ false) × SwitchedOff prefs ch cat)
unfolding allowed
allowed_iff prefs ch cat = (
  (λ h. (ground arith, stored-SwitchedOff prefs ch cat (ground arith))),
  (λ h.
      let (before, p, after, split, others, hit, off) = h.1 in
      rw (h.0, split) (SwitchedOff-stored before p after ch cat others hit off)),
)

pub allowed_protected : (prefs : List Preference) → allowed prefs email security ≡ true
unfolding allowed protected
allowed_protected prefs = refl

-- The protected pair is switched off by no call: the constructor and SetEnabled both refuse to.
abbrev pub IsLegal : Preference → Type 0
IsLegal p = (protected p.channel p.category && not p.enabled) ≡ false

-- A preference that NewPreference returns holds what it was asked for and never disables the
-- protected pair, and SetEnabled keeps that: when it would break it, it refuses and leaves the
-- preference as it was; otherwise it writes the flag and the time alone.
pub preference_IsLegal :
    (user : Uuid) (ch : Channel) (cat : Category) (enabled later : Bool) (now then_ : Time)
    (p : Preference)
    → new_preference user ch cat enabled now ≡ ok p
    → (p ≡ record {
      user_id = user;
      channel = ch;
      category = cat;
      enabled = enabled;
      updated_at = now;
    })
      × IsLegal p
      × IsLegal (set_enabled p later then_).0
      × (((set_enabled p later then_).0 ≡ p)
          ⊎ ((set_enabled p later then_).0 ≡ record p { enabled = later; updated_at = then_ }))
unfolding new_preference set_enabled
preference_IsLegal user ch cat enabled later now then_ p h = ground arith
