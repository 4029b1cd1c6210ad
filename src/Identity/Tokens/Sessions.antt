-- ===== src/Identity/Tokens/Sessions.antt =====
-- Logins, refreshes, reuse detections and logouts on one token table, in any order: a refresh is two
-- steps, the FindValid of application/refresh.go and, any time later, its Rotate.
use mathlib.Core.List.{Memᴰ}
use mathlib.Core.Path.{subst}
use kopiochi.Prelude.{
  ◌≡◌, sym, ◌∙◌, inl, inr, Bool, true, false, Option, none, List, [], ◌∷◌, Text, text_eq→eq, arith,
  All, All-mono, Bool-cases, ◌==◌, count_by, updated,
}
use kopiochi.Notification.Domain.Types.{ok}
use kopiochi.Identity.Domain.{Uuid, Time, Uuids, RefreshToken}
use kopiochi.Identity.Tokens.{
  RefreshTokenRow, Tokens, has_hash, known_hash, store, is_live, revoke_family, revoke_all_for_user,
  find_valid,
}
use kopiochi.Identity.Tokens.Exchange.{TxFaults, rotate}
use kopiochi.Identity.Tokens.Lineage.{
  HashesUnique, OneLive, known_hash-updated, updated-HashesUnique, updated-count_by, IsOf,
}

-- `reads` are the tokens that refreshes have read, each with the hash that it was looked up by.
pub record Sessions : Type 0 where
  pub tokens : Tokens
  pub reads : List (Text × RefreshToken)

-- uuid.New() makes a family that no row has.
abbrev pub IsFresh : Uuid → Tokens → Type 0
IsFresh family t = All (λ r. (r.family_id == family) ≡ false) t

pub All-mem {ℓ κ} : {A : Type ℓ} (P : A → Type κ) {x : A} {xs : List A} → Memᴰ x xs → All P xs → P x
All-mem P (Memᴰ.head e) h = subst P (sym e) h.0
All-mem P (Memᴰ.tail m) h = All-mem P m h.1

module _ (uu : Uuids) where
  infix 40 ◌⟶◌
  pub data ◌⟶◌ (s : Sessions) : Sessions → Type 0 where
    logs_in :
        (link : Option Text) (conflict : Text) (gen fresh : Uuid) (token : RefreshToken)
        → token.family_id ≡ []
        → IsFresh fresh s.tokens
        → s ⟶ record s { tokens = (store uu link conflict gen fresh token s.tokens).0 }
    starts_refresh :
        (h : Text) (now : Time) (token : RefreshToken)
        → find_valid uu none h now s.tokens ≡ ok token
        → s ⟶ record s { reads = (h, token) ∷ s.reads }
    rotates :
        (h : Text) (token next : RefreshToken) (faults : TxFaults) (conflict : Text)
        (gen fresh : Uuid) (now : Time)
        → Memᴰ (h, token) s.reads
        → next.family_id ≡ token.family_id
        → s ⟶ record s { tokens = (rotate uu faults conflict gen fresh now h next s.tokens).0 }
    detects_reuse :
        (link : Option Text) (now : Time) (family_id : Text)
        → s ⟶ record s { tokens = (revoke_family uu link now family_id s.tokens).0 }
    logs_out :
        (link : Option Text) (user_id : Text)
        → s ⟶ record s { tokens = (revoke_all_for_user uu link user_id s.tokens).0 }

  infix 40 ◌⟶*◌
  pub data ◌⟶*◌ (s : Sessions) : Sessions → Type 0 where
    start : s ⟶* s
    step : {m t : Sessions} → s ⟶* m → m ⟶ t → s ⟶* t

  -- A read token is of the family that the rows with its hash have.
  abbrev pub IsRead : Tokens → Text × RefreshToken → Type 0
  IsRead t x =
      (family : Uuid) × IsOf x.0 family t
      × (known_hash x.0 t ≡ true)
      × (x.1.family_id ≡ uu.to_text family)

  pub record IsSound (s : Sessions) : Type 0 where
    pub hashes : HashesUnique s.tokens
    pub one_live : OneLive s.tokens
    pub read : All (IsRead s.tokens) s.reads

  IsOf-updated :
      (p : RefreshTokenRow → Bool) (f : RefreshTokenRow → RefreshTokenRow)
      → ((r : RefreshTokenRow)
          → ((f r).token_hash ≡ r.token_hash) × ((f r).family_id ≡ r.family_id))
      → (h : Text) (family : Uuid) (t : Tokens) → IsOf h family t
      → IsOf h family (updated p f t)
  IsOf-updated p f same h family [] o = tt
  IsOf-updated p f same h family (r ∷ t) o =
      let rest = IsOf-updated p f same h family t o.1 in
      elim (Bool-cases (p r)) [
        | inl hit ↦ rw hit (rw ((same r).0, (same r).1) o.0, rest)
        | inr miss ↦ rw miss (o.0, rest)
      ]

  -- An update that keeps hashes and families and revives no token keeps the tables sound.
  pub updated-IsSound :
      (p : RefreshTokenRow → Bool) (f : RefreshTokenRow → RefreshTokenRow)
      → ((r : RefreshTokenRow)
          → ((f r).token_hash ≡ r.token_hash) × ((f r).family_id ≡ r.family_id))
      → ((r : RefreshTokenRow) (family : Uuid)
          → is_live family (f r) ≡ true
          → is_live family r ≡ true)
      → (s : Sessions) → IsSound s
      → IsSound (record s { tokens = updated p f s.tokens })
  updated-IsSound p f same kills s v = record {
    hashes = updated-HashesUnique p f (λ r. (same r).0) s.tokens v.hashes;
    one_live = λ family.
        let fewer = updated-count_by p f (λ r. (same r).0) kills family s.tokens in
        let one = v.one_live family in omega arith;
    read =
        All-mono
          (λ x (family, o, known, e). (
            family,
            IsOf-updated p f same x.0 family s.tokens o,
            known_hash-updated p f (λ r. (same r).0) x.0 s.tokens ∙ known,
            e,
          ))
          s.reads v.read;
  }

  other_hash :
      (h : Text) (row : RefreshTokenRow) (t : Tokens)
      → known_hash row.token_hash t ≡ false
      → known_hash h t ≡ true
      → has_hash h row ≡ true
      → ⊥
  other_hash h row t new known hit =
      let e = text_eq→eq row.token_hash h hit in let out = rw e at new in cc

  -- A new row whose family has no live token keeps the tables sound.
  pub cons-IsSound :
      (row : RefreshTokenRow) (s : Sessions)
      → known_hash row.token_hash s.tokens ≡ false
      → count_by (is_live row.family_id) s.tokens ≡ 0
      → IsSound s
      → IsSound (record s { tokens = row ∷ s.tokens })
  cons-IsSound row s new empty v = record {
    hashes = (new, v.hashes);
    one_live = one;
    read =
        All-mono
          (λ x (family, o, known, e). (
            family,
            ((λ hit. absurd (other_hash x.0 row s.tokens new known hit)), o),
            (let seen = known in ground arith),
            e,
          ))
          s.reads v.read;
  }
    where
      one : OneLive (row ∷ s.tokens)
      one family = elim (Bool-cases (row.family_id == family)) [
        | inl same ↦
            let old : count_by (is_live family) s.tokens ≡ 0 = ground (arith, empty) in ground arith
        | inr other ↦ rw other (v.one_live family)
      ]
