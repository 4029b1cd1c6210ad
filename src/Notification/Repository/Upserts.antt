-- ===== src/Notification/Repository/Upserts.antt =====
-- Upsert and ListForUser of repository/preference_repo.go: a preference that is written is the one
-- that Allowed reads back.
use mathlib.Core.Bool.{true≢false}
use kopiochi.Prelude.{
  ◌≡◌, refl, ap, sym, ◌∙◌, ◌⊎◌, inl, inr, Bool, true, false, ◌&&◌, Option, none, some, List, [],
  ◌∷◌, Text, arith, ◌==◌, ==_iff, ==_refl, Bool-cases, if◌then◌else◌, where_,
}
use kopiochi.Notification.Domain.Types.{
  Uuid, Time, Channel, Category, same_channel_refl, same_category_refl, same_channel→eq,
  same_category→eq, ok, err,
}
use kopiochi.Notification.Domain.Preference.{Preference, is_about, stored}
use kopiochi.Notification.Repository.Preferences.{
  PreferenceTable, same_key, upsert_row, upsert_rows, upsert, key_twice,
}

abbrev pub of_user : Uuid → PreferenceTable → List Preference
of_user user t = where_ (λ p. p.user_id == user) t

-- Is this the row of the user and the pair?
unfoldable pub answers : Uuid → Channel → Category → Preference → Bool
answers user ch cat p = p.user_id == user && is_about ch cat p

stored-cons :
    (user : Uuid) (ch : Channel) (cat : Category) (q : Preference) (t : PreferenceTable)
    → stored (of_user user (q ∷ t)) ch cat
      ≡ (if answers user ch cat q then q.enabled else stored (of_user user t) ch cat)
unfolding stored answers
stored-cons user ch cat q t = elim (Bool-cases (q.user_id == user)) [
  | inl mine ↦ rw (mine, stored)
  | inr other ↦ rw (other, stored)
]

-- Rows with one key answer alike.
answers-same_key :
    (p q : Preference) (user : Uuid) (ch : Channel) (cat : Category)
    → same_key p q ≡ true
    → answers user ch cat q ≡ answers user ch cat p
unfolding answers
answers-same_key p q user ch cat h =
    let u = (==_iff q.user_id p.user_id).0 (ground arith) in
    let c = same_channel→eq q.channel p.channel (ground arith) in
    let k = same_category→eq q.category p.category (ground arith) in rw (u, c, k)

-- Two rows that answer have one key.
same_key-answers :
    (p q : Preference) (user : Uuid) (ch : Channel) (cat : Category)
    → answers user ch cat q ≡ true
    → answers user ch cat p ≡ true
    → same_key p q ≡ true
unfolding answers
same_key-answers p q user ch cat h k =
    let u = (==_iff q.user_id user).0 (ground arith) in
    let v = (==_iff p.user_id user).0 (ground arith) in
    let c = same_channel→eq q.channel ch (ground arith) in
    let d = same_channel→eq p.channel ch (ground arith) in
    let e = same_category→eq q.category cat (ground arith) in
    let f = same_category→eq p.category cat (ground arith) in
    rw (u, v, c, d, e, f, ==_refl user, same_channel_refl ch, same_category_refl cat)

keep : (a b c d : Bool) → (if a then b else d) ≡ (if a then b else (if a then c else d))
keep a b c d = ground arith

apart :
    (a a' b c d : Bool)
    → (a ≡ true → a' ≡ true → ⊥)
    → (if a then c else (if a' then b else d)) ≡ (if a' then b else (if a then c else d))
apart false a' b c d h = ground arith
apart true false b c d h = refl
apart true true b c d h = absurd (h refl refl)

clash :
    (p q : Preference) (user : Uuid) (ch : Channel) (cat : Category)
    → answers user ch cat q ≡ true
    → answers user ch cat p ≡ true
    → same_key p q ≡ false
    → ⊥
clash p q user ch cat h k miss =
    let e = same_key-answers p q user ch cat h k in true≢false (sym e ∙ miss)

answers-record :
    (q : Preference) (b : Bool) (now : Time) (user : Uuid) (ch : Channel) (cat : Category)
    → answers user ch cat (record q { enabled = b; updated_at = now }) ≡ answers user ch cat q
unfolding answers
answers-record q b now user ch cat = refl

-- After the upsert of one preference, its user's answer for its pair is what was written, and every
-- other answer is what it was.
pub upsert_row-stored :
    (p : Preference) (user : Uuid) (ch : Channel) (cat : Category) (t : PreferenceTable)
    → stored (of_user user (upsert_row p t)) ch cat
      ≡ (if answers user ch cat p then p.enabled else stored (of_user user t) ch cat)
unfolding upsert_row
upsert_row-stored p user ch cat [] = stored-cons user ch cat p []
upsert_row-stored p user ch cat (q ∷ t) = elim (Bool-cases (same_key p q)) [
  | inl hit ↦
      let q' : Preference = record q { enabled = p.enabled; updated_at = p.updated_at } in
      rw hit (
        rw
          (
            stored-cons user ch cat q' t,
            stored-cons user ch cat q t,
            answers-record q p.enabled p.updated_at user ch cat,
            answers-same_key p q user ch cat hit,
          )
          (keep (answers user ch cat p) p.enabled q.enabled (stored (of_user user t) ch cat)))
  | inr miss ↦ rw miss (
      rw
        (
          stored-cons user ch cat q (upsert_row p t),
          stored-cons user ch cat q t,
          upsert_row-stored p user ch cat t,
        )
        (apart (answers user ch cat q) (answers user ch cat p) p.enabled q.enabled
          (stored (of_user user t) ch cat) (λ h k. absurd (clash p q user ch cat h k miss))))
]

-- The answer after a list of writes: the last write about the pair, or else what was there.
abbrev pub last_answer : List Preference → Uuid → Channel → Category → Bool → Bool
last_answer [] user ch cat before = before
last_answer (p ∷ ps) user ch cat before =
    last_answer ps user ch cat (if answers user ch cat p then p.enabled else before)

upsert_rows-stored :
    (ps : List Preference) (user : Uuid) (ch : Channel) (cat : Category) (t : PreferenceTable)
    → stored (of_user user (upsert_rows ps t)) ch cat
      ≡ last_answer ps user ch cat (stored (of_user user t) ch cat)
unfolding upsert_rows
upsert_rows-stored [] user ch cat t = refl
upsert_rows-stored (p ∷ ps) user ch cat t =
    upsert_rows-stored ps user ch cat (upsert_row p t)
    ∙ ap (last_answer ps user ch cat) (upsert_row-stored p user ch cat t)

-- After an Upsert that succeeds, what the repository holds for a user answers each pair by the write
-- of that user about it, and as before where there was none: no other pair and no other user is
-- touched. After one that fails the table is what it was.
pub upsert-stored :
    (link : Option Text) (conflict : Text) (ps : List Preference) (user : Uuid) (ch : Channel)
    (cat : Category) (t : PreferenceTable)
    → (((upsert link conflict ps t).1 ≡ ok tt)
        × (stored (of_user user (upsert link conflict ps t).0) ch cat
            ≡ last_answer ps user ch cat (stored (of_user user t) ch cat)))
      ⊎ ((e : Text) × (upsert link conflict ps t ≡ (t, err e)))
unfolding upsert
upsert-stored link conflict [] user ch cat t = inl (refl, refl)
upsert-stored (some e) conflict (p ∷ ps) user ch cat t = inr (e, refl)
upsert-stored none conflict (p ∷ ps) user ch cat t = elim (Bool-cases (key_twice (p ∷ ps))) [
  | inl twice ↦ inr (conflict, rw twice)
  | inr once ↦ inl (rw once (refl, upsert_rows-stored (p ∷ ps) user ch cat t))
]
