-- ===== src/Identity/Users/Saving.antt =====
-- Save of repository/user_repo.go, and what the lookups then find.
use kopiochi.Prelude.{
  ◌≡◌, ◌≢◌, refl, ap, ◌∙◌, ◌⊎◌, inl, inr, false, Option, none, some, [], ◌∷◌, Text, arith, ◌==◌,
  ==_refl, ==_iff, if◌then◌else◌, find_first, Bool-cases, Option-cases,
}
use kopiochi.Notification.Domain.Types.{ok, err}
use kopiochi.Identity.Domain.{Uuid, Time, Uuids, User}
use kopiochi.Identity.Users.{
  UserRow, Users, UserError, refused, save_row, with_default, stored_user, deref, nil_if_empty,
  from_domain_user, to_domain_user, scan_user, find_by_id, clashes, write_user, save_user,
}

deref-nil_if_empty : (s : Text) → deref (nil_if_empty s) ≡ s
deref-nil_if_empty [] = refl
deref-nil_if_empty (b ∷ s) = refl

to_domain_user-from_domain_user : (u : User) → to_domain_user (from_domain_user u) ≡ u
unfolding to_domain_user from_domain_user
to_domain_user-from_domain_user u =
    ground (arith, deref-nil_if_empty u.password_hash, deref-nil_if_empty u.mfa_secret)

written :
    (row : UserRow) (t : Users) → find_first (λ r. r.id == row.id) (write_user row t) ≡ some row
unfolding write_user
written row [] = rw (==_refl row.id)
written row (r ∷ t) = elim (Bool-cases (r.id == row.id)) [
  | inl hit ↦ rw hit (rw (==_refl row.id))
  | inr miss ↦ rw miss (rw miss (written row t))
]

unwritten :
    (row : UserRow) (other : Uuid) (t : Users)
    → (row.id == other) ≡ false
    → find_first (λ r. r.id == other) (write_user row t) ≡ find_first (λ r. r.id == other) t
unfolding write_user
unwritten row other [] n = rw n
unwritten row other (r ∷ t) n = elim (Bool-cases (r.id == row.id)) [
  | inl hit ↦
      let same = (==_iff r.id row.id).0 hit in
      let out : (r.id == other) ≡ false = ap (λ x. x == other) same ∙ n in rw (hit, out) (rw n)
  | inr miss ↦ rw miss (ap (λ o. if r.id == other then some r else o) (unwritten row other t n))
]

save_row_lem :
    (uu : Uuids) (lower : Text → Text) (link : Option Text) (conflict : Text) (row : UserRow)
    (other : Uuid) (t : Users)
    → (row.id == other) ≡ false
    → let x = save_row lower link conflict row t in
      ((x.0 ≡ t) × (e : UserError) × (x.1 ≡ err e))
      ⊎ ((x.1 ≡ ok tt)
          × (find_by_id uu none (uu.to_text row.id) x.0 ≡ ok (to_domain_user row))
          × (find_by_id uu none (uu.to_text other) x.0 ≡ find_by_id uu none (uu.to_text other) t))
unfolding find_by_id
save_row_lem uu lower (some e) conflict row other t n = inl (refl, refused e, refl)
save_row_lem uu lower none conflict row other t n = elim (Bool-cases (clashes lower row t)) [
  | inl clash ↦ inl (rw clash (refl, refused conflict, refl))
  | inr free ↦ inr (
      rw (free, uu.parse-to_text row.id, uu.parse-to_text other)
        (refl, ap scan_user (written row t), ap scan_user (unwritten row other t n)))
]

own_id :
    (gen : Uuid) (u : User) → u.id ≢ 0 → with_default gen (from_domain_user u) ≡ from_domain_user u
unfolding from_domain_user
own_id gen u h = ground arith

-- The user as the table keeps it.
abbrev pub kept_user : (Time → Time) → User → User
kept_user column u = record u {
  locked_until = elim u.locked_until [ none ↦ none | some t ↦ some (column t) ];
}

stored_user-kept_user :
    (column : Time → Time) (u : User)
    → stored_user column (from_domain_user u) ≡ from_domain_user (kept_user column u)
unfolding from_domain_user
stored_user-kept_user column u = elim (Option-cases u.locked_until) [
  | inl free ↦ rw free refl
  | inr (t, locked) ↦ rw locked refl
]

-- A user with an id that was saved is read back as it is, an empty hash or secret included, but for
-- the end of its lock, which is what the column keeps of it; every other user is found as before. A
-- Save that the database refuses, for a name or an address that another user has or for any other
-- reason, leaves the table as it was.
pub save_user_lem :
    (uu : Uuids) (lower : Text → Text) (column : Time → Time) (link : Option Text) (conflict : Text)
    (gen : Uuid) (u : User) (other : Uuid) (t : Users)
    → u.id ≢ 0
    → other ≢ u.id
    → let x = save_user lower column link conflict gen u t in
      ((x.0 ≡ t) × (e : UserError) × (x.1 ≡ err e))
      ⊎ ((x.1 ≡ ok tt)
          × (find_by_id uu none (uu.to_text u.id) x.0 ≡ ok (kept_user column u))
          × (find_by_id uu none (uu.to_text other) x.0 ≡ find_by_id uu none (uu.to_text other) t))
unfolding save_user from_domain_user
save_user_lem uu lower column link conflict gen u other t h n =
    let differs : (u.id == other) ≡ false = ground arith in
    let kept = kept_user column u in
    rw (own_id gen u h) (
      rw (stored_user-kept_user column u)
        (elim (save_row_lem uu lower link conflict (from_domain_user kept) other t differs) [
          | inl bad ↦ inl bad
          | inr (good, own, others) ↦
              inr (good, own ∙ ap ok (to_domain_user-from_domain_user kept), others)
        ]))
