-- ===== src/Profiles/Ensuring.antt =====
-- EnsureOwnProfile of modules/user creates the caller's profile once.
use kopiochi.Prelude.{
  ◌==◌, ==_refl, ==_iff, ◌≡◌, refl, ap, sym, ◌∙◌, inl, inr, false, Bool-cases, Option, none, some,
  Option-cases, [], ◌∷◌, Text,
}
use kopiochi.Notification.Domain.Types.{Uuid, Time}
use kopiochi.Platform.Authn.{Context}
use kopiochi.Platform.Problem.{Route, json}
use kopiochi.Platform.DbErrors.{translate}
use kopiochi.Profiles.{
  User, Table, find_user, ensure_exists, get_by_id, caller, ensure_profile, get_profile,
}

found-id : (id : Uuid) (u : User) (t : Table) → find_user id t ≡ some u → u.id ≡ id
unfolding find_user
found-id id u [] h = cc
found-id id u (x ∷ t) h = elim (Bool-cases (x.id == id)) [
  | inl same ↦ ap (λ v. v.id) (sym (some_user x u (rw same at h))) ∙ (==_iff x.id id).0 same
  | inr other ↦ found-id id u t (rw other at h)
]
  where
    some_user : (a b : User) → some a ≡ some b → a ≡ b
    some_user a b e = cc

module _ (parse_uuid : Text → Option Uuid) (r : Route) where
  -- For a caller whose subject is a uuid, over a database that answers: EnsureOwnProfile answers 200 with a
  -- profile of that id; after it GetOwnProfile answers the same, and so does every EnsureOwnProfile, at
  -- any time, which leaves the table as it is. The profiles of other ids are as they were.
  pub ensure_profile_lem :
      (ctx : Context) (id other : Uuid) (now later : Time) (t : Table)
      → caller parse_uuid r ctx ≡ some id
      → (id == other) ≡ false
      → (u : User) × (after : Table) × (u.id ≡ id)
        × (ensure_profile parse_uuid r none none now ctx t ≡ (after, json 200 u))
        × (get_profile parse_uuid r none ctx after ≡ json 200 u)
        × (ensure_profile parse_uuid r none none later ctx after ≡ (after, json 200 u))
        × (find_user other after ≡ find_user other t)
  unfolding ensure_profile get_profile ensure_exists get_by_id translate
  ensure_profile_lem ctx id other now later t known apart = elim (Option-cases (find_user id t)) [
    | inr (u, stored) ↦ (
      u,
      t,
      found-id id u t stored,
      rw known (rw stored (rw stored refl)),
      rw known (rw stored refl),
      rw known (rw stored (rw stored refl)),
      refl,
    )
    | inl absent ↦
        let u : User = record { id = id; created_at = now; updated_at = now } in
        let there : find_user id (u ∷ t) ≡ some u = rw (==_refl id) refl in
        (
          u,
          u ∷ t,
          refl,
          rw known (rw absent (rw there refl)),
          rw known (rw there refl),
          rw known (rw there (rw there refl)),
          rw apart refl,
        )
  ]
