-- ===== src/Identity/Tokens/Once.antt =====
-- Rotate of repository/refresh_token_store.go: a token is exchanged once, whatever happens after it.
use kopiochi.Prelude.{
  ◌≡◌, refl, ◌∙◌, ◌⊎◌, inl, inr, Bool, true, false, Option, none, some, [], ◌∷◌, Text, text_eq→eq,
  arith, Bool-cases, Option-cases, ◌==◌, count_by, updated,
}
use kopiochi.Notification.Domain.Types.{Result, ok, err}
use kopiochi.Identity.Domain.{Uuid, Time, Uuids, RefreshToken}
use kopiochi.Identity.Tokens.{
  RefreshTokenRow, Tokens, TokenError, db_error, already_used, has_hash, known_hash, is_unspent,
  is_live, mark_reuse, to_refresh_row, store_row, store, revoke_live, revoke_family, revoke_of,
  revoke_all_for_user,
}
use kopiochi.Identity.Tokens.Exchange.{TxFaults, retire, rotate}
use kopiochi.Identity.Tokens.Rotation.{rotate_atomic, spent-after, unspent-known}
use kopiochi.Identity.Tokens.Lineage.{known_hash-updated, insert-cases}
use kopiochi.Identity.Tokens.Sessions.{
  Sessions, ◌⟶◌, logs_in, starts_refresh, rotates, detects_reuse, logs_out, ◌⟶*◌, start, step,
}

-- A row has the hash, and none of those that have it can be exchanged.
record IsGone (h : Text) (t : Tokens) : Type 0 where
  known : known_hash h t ≡ true
  spent : count_by (is_unspent h) t ≡ 0

updated-spent :
    (p : RefreshTokenRow → Bool) (f : RefreshTokenRow → RefreshTokenRow) (h : Text)
    → ((r : RefreshTokenRow) → is_unspent h (f r) ≡ true → is_unspent h r ≡ true)
    → (t : Tokens) → count_by (is_unspent h) t ≡ 0
    → count_by (is_unspent h) (updated p f t) ≡ 0
updated-spent p f h kills [] e = refl
updated-spent p f h kills (r ∷ t) e = ground (arith, kills r, updated-spent p f h kills t)

-- An update that keeps the hashes and revives no token.
updated-IsGone :
    (p : RefreshTokenRow → Bool) (f : RefreshTokenRow → RefreshTokenRow) (h : Text)
    → ((r : RefreshTokenRow) → (f r).token_hash ≡ r.token_hash)
    → ((r : RefreshTokenRow) → is_unspent h (f r) ≡ true → is_unspent h r ≡ true)
    → (t : Tokens) → IsGone h t
    → IsGone h (updated p f t)
updated-IsGone p f h same kills t g = record {
  known = known_hash-updated p f same h t ∙ g.known;
  spent = updated-spent p f h kills t g.spent;
}

-- A row whose hash is new.
cons-IsGone :
    (h : Text) (row : RefreshTokenRow) (t : Tokens)
    → known_hash row.token_hash t ≡ false
    → IsGone h t
    → IsGone h (row ∷ t)
cons-IsGone h row t new g = elim (Bool-cases (has_hash h row)) [
  | inl hit ↦
      let e = text_eq→eq row.token_hash h hit in let out = rw e at new in let known = g.known in cc
  | inr miss ↦ record { known = rw miss g.known; spent = rw miss g.spent }
]

retire-IsGone :
    (now : Time) (old h : Text) (t : Tokens)
    → IsGone h t
    → IsGone h (updated (is_unspent old) (retire now) t)
retire-IsGone now old h t g =
    updated-IsGone (is_unspent old) (retire now) h (λ r. refl) (λ r live. ground arith) t g

module _ (uu : Uuids) where
  rotate-IsGone :
      (faults : TxFaults) (conflict : Text) (gen fresh : Uuid) (now : Time) (old : Text)
      (next : RefreshToken) (h : Text) (t : Tokens)
      → IsGone h t
      → IsGone h (rotate uu faults conflict gen fresh now old next t).0
  rotate-IsGone faults conflict gen fresh now old next h t g =
      elim (rotate_atomic uu faults conflict gen fresh now old next t) [
        | inl (same, e, bad) ↦ rw same g
        | inr (good, row, made, r) ↦
            rw r.result
              (cons-IsGone h (record row { id = gen }) _ r.fresh (retire-IsGone now old h t g))
      ]

  store_row-IsGone :
      (link : Option Text) (conflict : Text) (gen : Uuid) (row : Result RefreshTokenRow TokenError)
      (h : Text) (t : Tokens)
      → IsGone h t
      → IsGone h (store_row link conflict gen row t).0
  store_row-IsGone link conflict gen (err e) h t g = g
  store_row-IsGone link conflict gen (ok row) h t g = elim (insert-cases link conflict gen row t) [
    | inl same ↦ rw same g
    | inr (new, added) ↦ rw added (cons-IsGone h (record row { id = gen }) t new g)
  ]

  revoke_live-IsGone :
      (link : Option Text) (now : Time) (family : Option Uuid) (h : Text) (t : Tokens)
      → IsGone h t
      → IsGone h (revoke_live link now family t).0
  revoke_live-IsGone link now none h t g = g
  revoke_live-IsGone (some e) now (some family) h t g = g
  revoke_live-IsGone none now (some family) h t g =
      updated-IsGone (is_live family) (mark_reuse now) h (λ r. refl) (λ r live. ground arith) t g

  revoke_of-IsGone :
      (link : Option Text) (user : Option Uuid) (h : Text) (t : Tokens)
      → IsGone h t
      → IsGone h (revoke_of link user t).0
  revoke_of-IsGone link none h t g = g
  revoke_of-IsGone (some e) (some user) h t g = g
  revoke_of-IsGone none (some user) h t g =
      updated-IsGone (λ r. r.user_id == user) (λ r. record r { revoked = true }) h (λ r. refl)
        (λ r live. ground arith) t g

  step-IsGone : {s s' : Sessions} (h : Text) → ◌⟶◌ uu s s' → IsGone h s.tokens → IsGone h s'.tokens
  unfolding store revoke_family revoke_all_for_user
  step-IsGone {s} h (logs_in link conflict gen fresh token e f) g =
      store_row-IsGone link conflict gen (to_refresh_row uu fresh token) h s.tokens g
  step-IsGone {s} h (starts_refresh k now token e) g = g
  step-IsGone {s} h (rotates k token next faults conflict gen fresh now m same) g =
      rotate-IsGone faults conflict gen fresh now k next h s.tokens g
  step-IsGone {s} h (detects_reuse link now family_id) g =
      revoke_live-IsGone link now (uu.parse family_id) h s.tokens g
  step-IsGone {s} h (logs_out link user_id) g =
      revoke_of-IsGone link (uu.parse user_id) h s.tokens g

  reached-IsGone :
      {s s' : Sessions} (h : Text) → ◌⟶*◌ uu s s' → IsGone h s.tokens → IsGone h s'.tokens
  reached-IsGone h start g = g
  reached-IsGone h (step before last) g = step-IsGone h last (reached-IsGone h before g)

  rotated-IsGone :
      (faults : TxFaults) (conflict : Text) (gen fresh : Uuid) (now : Time) (old : Text)
      (next : RefreshToken) (t : Tokens)
      → (rotate uu faults conflict gen fresh now old next t).1 ≡ ok tt
      → IsGone old (rotate uu faults conflict gen fresh now old next t).0
  rotated-IsGone faults conflict gen fresh now old next t good =
      elim (rotate_atomic uu faults conflict gen fresh now old next t) [
        | inl (same, e, bad) ↦ cc
        | inr (fine, row, made, r) ↦
            let known =
              known_hash-updated (is_unspent old) (retire now) (λ s. refl) old t
              ∙ unspent-known now old t r.retired in
            rw r.result (
              cons-IsGone old (record row { id = gen }) _ r.fresh
                (record { known = known; spent = spent-after now old t }))
      ]

  -- A Rotate of a hash that is gone.
  abbrev pub IsRefused : TxFaults → Tokens → Tokens × Result (Unit {0}) TokenError → Type 0
  IsRefused faults t x =
      (x.0 ≡ t)
      × ((x.1 ≡ err already_used)
          ⊎ ((e : Text) × ((faults.begin_ ≡ some e) ⊎ (faults.update ≡ some e))
              × (x.1 ≡ err (db_error e))))

  gone-IsRefused :
      (faults : TxFaults) (conflict : Text) (gen fresh : Uuid) (now : Time) (old : Text)
      (next : RefreshToken) (row : RefreshTokenRow) (t : Tokens)
      → to_refresh_row uu fresh next ≡ ok row
      → IsGone old t
      → IsRefused faults t (rotate uu faults conflict gen fresh now old next t)
  unfolding rotate
  gone-IsRefused faults conflict gen fresh now old next row t made g =
      let spent = g.spent in
      elim (Option-cases faults.begin_) [
        | inr (e, off) ↦ rw (made, off) (refl, inr (e, inl refl, refl))
        | inl on ↦ elim (Option-cases faults.update) [
          | inr (e, off) ↦ rw (made, on, off) (refl, inr (e, inr refl, refl))
          | inl fine ↦ rw (made, on, fine, spent) (refl, inl refl)
        ]
      ]

  -- A token is exchanged once: after a Rotate of a hash succeeded, and whatever logins, refreshes,
  -- reuse detections and logouts came after it, with whatever errors of the database, a Rotate of
  -- that hash for a well-formed token leaves the table as it is and fails, with
  -- ErrRefreshTokenAlreadyUsed, or with the database's error if that refused the BEGIN or the UPDATE.
  pub rotate_once :
      (faults : TxFaults) (conflict : Text) (gen fresh : Uuid) (now : Time) (old : Text)
      (next : RefreshToken) (s later : Sessions) (faults' : TxFaults) (conflict' : Text)
      (gen' fresh' : Uuid) (now' : Time) (other : RefreshToken) (row : RefreshTokenRow)
      → (rotate uu faults conflict gen fresh now old next s.tokens).1 ≡ ok tt
      → ◌⟶*◌ uu
          (record s { tokens = (rotate uu faults conflict gen fresh now old next s.tokens).0 })
          later
      → to_refresh_row uu fresh' other ≡ ok row
      → IsRefused faults' later.tokens
          (rotate uu faults' conflict' gen' fresh' now' old other later.tokens)
  rotate_once faults conflict gen fresh now old next s later faults' conflict' gen' fresh' now'
        other row good run made =
      gone-IsRefused faults' conflict' gen' fresh' now' old other row later.tokens made (
        reached-IsGone old run
          (rotated-IsGone faults conflict gen fresh now old next s.tokens good))
