-- ===== src/Identity/Tokens/Invariant.antt =====
-- The tables that logins, refreshes, reuse detections and logouts reach, in whatever order their steps
-- come.
use kopiochi.Prelude.{
  ◌≤◌, ◌≡◌, refl, ap, sym, ◌∙◌, inl, inr, Bool, true, ◌&&◌, Option, none, some, [], ◌∷◌, Text,
  arith, ◌==◌, count_by, updated, find_first, ltb_ℤ,
}
use kopiochi.Notification.Domain.Types.{Result, ok, err}
use kopiochi.Identity.Domain.{Uuid, Time, Uuids, RefreshToken}
use kopiochi.Identity.Tokens.{
  invalid_token, scan, store_row, revoke_live, revoke_of, RefreshTokenRow, Tokens, TokenError,
  store, is_unspent, is_live, mark_reuse, revoke_family, revoke_all_for_user, find_valid,
  from_refresh_row, to_refresh_row,
}
use kopiochi.Identity.Tokens.Exchange.{TxFaults, retire, rotate}
use kopiochi.Identity.Tokens.Rotation.{IsRowOf, rotate_atomic}
use mathlib.Core.Option.{some-injective}
use kopiochi.Identity.Tokens.Lineage.{
  HashesUnique, retire-count_by, find_first-IsOf, insert-cases, to_refresh_row_lem,
}
use kopiochi.Identity.Tokens.Sessions.{
  Sessions, IsFresh, All-mem, ◌⟶◌, logs_in, starts_refresh, rotates, detects_reuse, logs_out, ◌⟶*◌,
  start, step, IsRead, IsSound, updated-IsSound, cons-IsSound,
}

module _ (uu : Uuids) where
  fresh_family : (family : Uuid) (t : Tokens) → IsFresh family t → count_by (is_live family) t ≡ 0
  fresh_family family [] h = refl
  fresh_family family (r ∷ t) h = ground (arith, h.0, fresh_family family t h.1)

  store-IsSound :
      (link : Option Text) (conflict : Text) (gen fresh : Uuid) (token : RefreshToken)
      (s : Sessions)
      → token.family_id ≡ []
      → IsFresh fresh s.tokens
      → IsSound uu s
      → IsSound uu (record s { tokens = (store uu link conflict gen fresh token s.tokens).0 })
  unfolding store
  store-IsSound link conflict gen fresh token s e f v = go (to_refresh_row uu fresh token) refl
    where
      go :
          (r : Result RefreshTokenRow TokenError)
          → to_refresh_row uu fresh token ≡ r
          → IsSound uu (record s { tokens = (store_row link conflict gen r s.tokens).0 })
      go (err x) h = v
      go (ok row) h = elim (insert-cases link conflict gen row s.tokens) [
        | inl same ↦ rw same v
        | inr (new, added) ↦
            let made = (to_refresh_row_lem uu fresh token row h).0 in
            let started : row.family_id ≡ fresh = ground (arith, rw e at made) in
            rw added (
              cons-IsSound uu (record row { id = gen }) s new
                (rw started (fresh_family fresh s.tokens f)) v)
      ]

  -- The family of the row of a token that names one.
  named_family :
      (fresh family : Uuid) (next : RefreshToken) (row : RefreshTokenRow)
      → next.family_id ≡ uu.to_text family
      → IsRowOf uu fresh next row
      → row.family_id ≡ family
  named_family fresh family next row e made = elim made.family [
    | inl (none_named, _) ↦ absurd (uu.to_text_ne family (sym e ∙ none_named))
    | inr parsed ↦ some-injective _ _ (sym parsed ∙ (ap uu.parse e ∙ uu.parse-to_text family))
  ]

  rotate-IsSound :
      (h : Text) (token next : RefreshToken) (faults : TxFaults) (conflict : Text)
      (gen fresh : Uuid) (now : Time) (s : Sessions)
      → IsRead uu s.tokens (h, token)
      → next.family_id ≡ token.family_id
      → IsSound uu s
      → IsSound uu
          (record s { tokens = (rotate uu faults conflict gen fresh now h next s.tokens).0 })
  rotate-IsSound h token next faults conflict gen fresh now s (family, o, known, e) same v =
      elim (rotate_atomic uu faults conflict gen fresh now h next s.tokens) [
        | inl (unchanged, e, bad) ↦ rw unchanged v
        | inr (good, row, made, r) ↦
            let joined = named_family fresh family next row (same ∙ e) made in
            let fewer = retire-count_by now h family s.tokens o in
            let one = v.one_live family in
            let some_spent = r.retired in
            let empty : count_by (is_live family) (updated (is_unspent h) (retire now) s.tokens)
                ≡ 0 =
              omega arith in
            rw r.result (
              cons-IsSound uu (record row { id = gen })
                (record s { tokens = updated (is_unspent h) (retire now) s.tokens }) r.fresh
                (rw joined empty)
                (updated-IsSound uu (is_unspent h) (retire now) (λ x. (refl, refl))
                  (λ x f live. ground arith) s v))
      ]

  find_valid-IsRead :
      (h : Text) (now : Time) (token : RefreshToken) (t : Tokens)
      → HashesUnique t
      → find_valid uu none h now t ≡ ok token
      → IsRead uu t (h, token)
  unfolding find_valid from_refresh_row
  find_valid-IsRead h now token t u e = go (find_first valid t) refl e
    where
      valid : RefreshTokenRow → Bool
      valid r = is_unspent h r && ltb_ℤ now r.expires_at

      go :
          (o : Option RefreshTokenRow)
          → find_first valid t ≡ o
          → scan uu invalid_token o ≡ ok token
          → IsRead uu t (h, token)
      go none k x = cc
      go (some r) k x =
          let (others, known) = find_first-IsOf h valid t r (λ s hit. ground arith) u k in
          (r.family_id, others, known, ground arith)

  revoke_live-IsSound :
      (link : Option Text) (now : Time) (family : Option Uuid) (s : Sessions)
      → IsSound uu s
      → IsSound uu (record s { tokens = (revoke_live link now family s.tokens).0 })
  revoke_live-IsSound link now none s v = v
  revoke_live-IsSound (some e) now (some family) s v = v
  revoke_live-IsSound none now (some family) s v =
      updated-IsSound uu (is_live family) (mark_reuse now) (λ r. (refl, refl))
        (λ r f live. ground arith) s v

  revoke_of-IsSound :
      (link : Option Text) (user : Option Uuid) (s : Sessions)
      → IsSound uu s
      → IsSound uu (record s { tokens = (revoke_of link user s.tokens).0 })
  revoke_of-IsSound link none s v = v
  revoke_of-IsSound (some e) (some user) s v = v
  revoke_of-IsSound none (some user) s v =
      updated-IsSound uu (λ r. r.user_id == user) (λ r. record r { revoked = true })
        (λ r. (refl, refl)) (λ r f live. ground arith) s v

  step-IsSound : {s s' : Sessions} → ◌⟶◌ uu s s' → IsSound uu s → IsSound uu s'
  unfolding revoke_family revoke_all_for_user
  step-IsSound {s} (logs_in link conflict gen fresh token e f) v =
      store-IsSound link conflict gen fresh token s e f v
  step-IsSound {s} (starts_refresh h now token e) v = record {
    hashes = v.hashes;
    one_live = v.one_live;
    read = (find_valid-IsRead h now token s.tokens v.hashes e, v.read);
  }
  step-IsSound {s} (rotates h token next faults conflict gen fresh now m same) v =
      rotate-IsSound h token next faults conflict gen fresh now s
        (All-mem (IsRead uu s.tokens) m v.read) same v
  step-IsSound {s} (detects_reuse link now family_id) v =
      revoke_live-IsSound link now (uu.parse family_id) s v
  step-IsSound {s} (logs_out link user_id) v = revoke_of-IsSound link (uu.parse user_id) s v

  reached-IsSound : {s s' : Sessions} → ◌⟶*◌ uu s s' → IsSound uu s → IsSound uu s'
  reached-IsSound start v = v
  reached-IsSound (step before last) v = step-IsSound last (reached-IsSound before v)

  -- Rotation never leaves two live tokens: from an empty table, after any interleaving of logins,
  -- refreshes, reuse detections and logouts, with whatever errors the database answers some of them,
  -- every family has at most one token that is not revoked, and no hash occurs twice. A refresh
  -- may rotate on what it read arbitrarily long before.
  pub one_live_token :
      (s : Sessions)
      → ◌⟶*◌ uu (record { tokens = []; reads = [] }) s
      → ((family : Uuid) → count_by (is_live family) s.tokens ≤ 1) × HashesUnique s.tokens
  one_live_token s run =
      let v =
        reached-IsSound run (record { hashes = tt; one_live = λ family. omega arith; read = tt }) in
      (v.one_live, v.hashes)
