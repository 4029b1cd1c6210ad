-- ===== src/Identity/Application/Replaying.antt =====
-- Reuse detection of modules/identity/application/refresh.go over the table of refresh tokens.
use mathlib.Core.Path.{subst}
use kopiochi.Prelude.{
  is_empty-ne, ℕ, ◌≡◌, ◌≢◌, refl, ap, sym, ◌∙◌, ◌⊎◌, inl, inr, true, false, ◌||◌, Option, none,
  some, [], Text, is_empty, arith, Bool-cases, if◌then◌else◌, find_first, ◌==◌,
}
use kopiochi.Notification.Domain.Types.{Result, ok, err}
use kopiochi.Identity.Domain.{Time, Uuids, RefreshToken, usable}
use kopiochi.Identity.Tokens.{
  RefreshTokenRow, Tokens, TokenError, already_used, invalid_token, not_found, scan, has_hash,
  is_set, find_valid, find_any, revoke_family, from_refresh_row,
}
use kopiochi.Identity.Tokens.Lineage.{HashesUnique}
use kopiochi.Identity.Tokens.Revocation.{if_usable, find_valid-usable, Revokes, revoke_family_lem}
use kopiochi.Identity.Application.Ports.{Config, Fault, refresh_token_invalid, AuditEvent, Ports}
use kopiochi.Identity.Application.Refresh.{
  revoke_family_for_reuse, after_revoke_family, if_known, handle_unusable_refresh_token, fails,
  if_found, refresh,
}

abbrev lift_fault : TokenError → Fault
lift_fault already_used = record { already_used = true; text = [] }
lift_fault e = record { already_used = false; text = [] }

abbrev pub lift_token : Result RefreshToken TokenError → Result (Option RefreshToken) Fault
lift_token (ok token) = ok (some token)
lift_token (err e) = err (lift_fault e)

-- The ports stand on a table of refresh tokens that the database reads and writes as it is asked.
pub record OverTokens {W : Type 0} (ports : Ports W) (table : W → Tokens) (db_now : W → Time)
    : Type 0 where
  pub find_valid_reads :
      (w : W) (h : Text)
      → ports.find_valid w h ≡ (w, lift_token (find_valid ports.uuids none h (db_now w) (table w)))
  pub find_any_reads :
      (w : W) (h : Text)
      → ports.find_any w h ≡ (w, lift_token (find_any ports.uuids none h (table w)))
  pub revoke_family_writes :
      (w : W) (family : Text)
      → table (ports.revoke_family w family).0
        ≡ (revoke_family ports.uuids none (db_now w) family (table w)).0
  pub audit_keeps : (w : W) (e : AuditEvent) → table (ports.audit w e) ≡ table w

find_any-found :
    (uu : Uuids) (h : Text) (t : Tokens) (r : RefreshTokenRow)
    → find_first (has_hash h) t ≡ some r
    → find_any uu none h t ≡ ok (from_refresh_row uu r)
unfolding find_any
find_any-found uu h t r found = ap (scan uu not_found) found

abbrev pub IsSpent : RefreshTokenRow → Type 0
IsSpent r = (is_set r.used_at ≡ true) ⊎ (r.revoked ≡ true)

spent-usable :
    (uu : Uuids) (r : RefreshTokenRow) (now : Time)
    → IsSpent r
    → usable (from_refresh_row uu r) now ≡ false
unfolding usable from_refresh_row
spent-usable uu r now spent = ground arith

spent-flags :
    (uu : Uuids) (r : RefreshTokenRow)
    → IsSpent r
    → ((from_refresh_row uu r).used || (from_refresh_row uu r).revoked) ≡ true
unfolding from_refresh_row
spent-flags uu r spent = ground arith

find_valid-spent :
    (uu : Uuids) (h : Text) (now : Time) (t : Tokens) (r : RefreshTokenRow)
    → HashesUnique t
    → find_first (has_hash h) t ≡ some r
    → IsSpent r
    → find_valid uu none h now t ≡ err invalid_token
find_valid-spent uu h now t r unique found spent =
    find_valid-usable uu h now t unique
    ∙ (ap (if_usable now) (find_any-found uu h t r found) ∙ rw (spent-usable uu r now spent))

module _ {W : Type 0} (ports : Ports W) (cfg : Config) where
  handled :
      (x : W × Result (Option RefreshToken) Fault)
      → (if_known ports cfg x).1 ≡ refresh_token_invalid
  unfolding revoke_family_for_reuse
  handled (w, err e) = refl
  handled (w, ok none) = refl
  handled (w, ok (some known)) = elim (Bool-cases (known.used || known.revoked)) [
    | inl spent ↦ rw spent
    | inr fresh ↦ rw fresh
  ]

  if_found_refused :
      (hash : Text) (x : W × Result (Option RefreshToken) Fault)
      → ((token : RefreshToken) → x.1 ≢ ok (some token))
      → (if_found ports cfg hash x).1 ≡ err refresh_token_invalid
  unfolding handle_unusable_refresh_token
  if_found_refused hash (w, err e) h = ap err (handled (ports.find_any w hash))
  if_found_refused hash (w, ok none) h = ap err (handled (ports.find_any w hash))
  if_found_refused hash (w, ok (some token)) h = absurd (h token refl)

  -- The client cannot tell a theft that was detected from a token that never was, or one that
  -- expired: whatever the stores answer, the empty token, and a token that FindValid does not give,
  -- are refused with the same error.
  pub refresh_uniform :
      (w : W) (token : Text)
      → (token ≡ [])
        ⊎ ((t : RefreshToken) → (ports.find_valid w (ports.hash_token token)).1 ≢ ok (some t))
      → (refresh ports cfg w token).1 ≡ err refresh_token_invalid
  unfolding refresh
  refresh_uniform w token (inl none_given) = rw none_given refl
  refresh_uniform w token (inr h) = elim (Bool-cases (is_empty token)) [
    | inl empty ↦ rw empty
    | inr some_token ↦ rw some_token (if_found_refused (ports.hash_token token) _ h)
  ]

  module _ (table : W → Tokens) (db_now : W → Time) (over : OverTokens ports table db_now) where
    after_revoke_family_keeps :
        (tok : RefreshToken) (x : W × Result ℕ Fault)
        → table (after_revoke_family ports cfg tok x) ≡ table x.0
    after_revoke_family_keeps tok (w, err e) = over.audit_keeps w _
    after_revoke_family_keeps tok (w, ok revoked) = over.audit_keeps w _

    -- What a spent token sets off.
    replay_lem :
        (w : W) (token : Text) (r : RefreshTokenRow)
        → is_empty token ≡ false
        → HashesUnique (table w)
        → find_first (has_hash (ports.hash_token token)) (table w) ≡ some r
        → IsSpent r
        → refresh ports cfg w token ≡ (
          after_revoke_family ports cfg
              (from_refresh_row ports.uuids r)
              (ports.revoke_family w (from_refresh_row ports.uuids r).family_id),
          err refresh_token_invalid,
        )
    unfolding refresh handle_unusable_refresh_token revoke_family_for_reuse
    replay_lem w token r given unique found spent =
        let h = ports.hash_token token in
        let tok = from_refresh_row ports.uuids r in
        let missed =
          over.find_valid_reads w h
          ∙ ap (λ x. (w, lift_token x))
              (find_valid-spent ports.uuids h (db_now w) (table w) r unique found spent) in
        let known =
          over.find_any_reads w h
          ∙ ap (λ x. (w, lift_token x)) (find_any-found ports.uuids h (table w) r found) in
        let flags = spent-flags ports.uuids r spent in
        ap
          (λ b.
            if b
            then (w, err refresh_token_invalid)
            else if_found ports cfg h (ports.find_valid w h))
          given
        ∙ (ap (if_found ports cfg h) missed
            ∙ (ap (λ x. fails ports cfg (if_known ports cfg x)) known
                ∙ ap
                    (λ b. fails ports cfg (
                      if b
                      then revoke_family_for_reuse ports cfg w tok
                      else (w, refresh_token_invalid)))
                    flags))

    -- A token that was rotated away, or revoked, is presented again: the answer is the ordinary
    -- refusal, and afterwards every token of its family is revoked, the one that replaced it too,
    -- while the rows of the other families are as they were.
    pub refresh_replayed :
        (w : W) (token : Text) (r : RefreshTokenRow)
        → token ≢ []
        → HashesUnique (table w)
        → find_first (has_hash (ports.hash_token token)) (table w) ≡ some r
        → IsSpent r
        → ((refresh ports cfg w token).1 ≡ err refresh_token_invalid)
          × Revokes
              (λ s. s.family_id == r.family_id)
              (table w)
              (table (refresh ports cfg w token).0)
    unfolding from_refresh_row
    refresh_replayed w token r given unique found spent =
        let e = replay_lem w token r (is_empty-ne token given) unique found spent in
        let family = ports.uuids.to_text r.family_id in
        let written =
          ap (λ x. table x.0) e
          ∙ (after_revoke_family_keeps (from_refresh_row ports.uuids r)
                (ports.revoke_family w family)
              ∙ over.revoke_family_writes w family) in
        (
          ap (λ x. x.1) e,
          subst (Revokes (λ s. s.family_id == r.family_id) (table w)) (sym written)
              (revoke_family_lem ports.uuids (db_now w) r.family_id (table w)).1,
        )
