-- ===== src/Identity/Application/Rotating.antt =====
-- What a successful Refresh of modules/identity/application/refresh.go did.
use mathlib.Core.Path.{subst}
use kopiochi.Prelude.{
  arith, ◌+ℤ◌, ◌∙◌, ap, false, ◌≡◌, ◌≢◌, refl, inl, inr, Option, none, some, [], ◌∷◌, Text,
  Bool-cases,
}
use kopiochi.Notification.Domain.Types.{Result, ok, err}
use kopiochi.Identity.Domain.{Time, User, RefreshToken}
use kopiochi.Identity.Application.Ports.{
  Config, TokenResponse, Fault, AuthError, Ports, generate_random_token,
}
use kopiochi.Identity.Application.Refresh.{
  fails, after_access, after_rotate, after_random, after_user, if_found, refresh,
  handle_unusable_refresh_token, revoke_family_for_reuse,
}

module _ {W : Type 0} (ports : Ports W) (cfg : Config) where
  fails_ok : {A : Type 0} (x : W × AuthError) (r : A) → (fails ports cfg x).1 ≡ ok r → ⊥
  fails_ok (w, e) r h = cc

  after_access_ok :
      (u : User) (plain : Text) (x : W × Result Text Fault) (r : TokenResponse)
      → (after_access ports cfg u plain x).1 ≡ ok r
      → (plain ≡ r.refresh_token) × (x.1 ≡ ok r.access_token)
  after_access_ok u plain (w, err e) r h = cc
  after_access_ok u plain (w, ok access) r h = (ground arith, ground arith)

  -- The token that replaces one: the hash of a text, of this owner, live, unused and in the family of
  -- the old one, with its lifetime from now.
  abbrev pub replacement : User → RefreshToken → Text → Time → RefreshToken
  replacement u stored plain now = record {
    user_id = ports.uuids.to_text u.id;
    token_hash = ports.hash_token plain;
    expires_at = now +ℤ cfg.refresh_token_ttl;
    family_id = stored.family_id;
    used = false;
    revoked = false;
  }

  -- The exchange of the token of a hash that gave an answer: its refresh token was drawn, Rotate put it
  -- in the place of the old one, and the access token was issued for the owner after that.
  pub record IsExchanged (v : W) (hash : Text) (u : User) (stored : RefreshToken)
      (r : TokenResponse) : Type 0 where
    pub drawn_in : W
    pub drawn : generate_random_token ports v ≡ (drawn_in, ok r.refresh_token)
    pub after : W
    pub rotated :
        let clock = ports.now drawn_in in
        ports.rotate clock.0 hash (replacement u stored r.refresh_token clock.1) ≡ (after, ok tt)
    pub access : (ports.issue_access_token after u cfg.access_token_ttl).1 ≡ ok r.access_token

  after_rotate_ok :
      (u : User) (stored : RefreshToken) (plain : Text) (x : W × Result (Unit {0}) Fault)
      (r : TokenResponse)
      → (after_rotate ports cfg u stored plain x).1 ≡ ok r
      → (x ≡ (x.0, ok tt))
        × (plain ≡ r.refresh_token)
        × ((ports.issue_access_token x.0 u cfg.access_token_ttl).1 ≡ ok r.access_token)
  after_rotate_ok u stored plain (w, ok done) r h =
      let (same, access) = after_access_ok u plain _ r h in (refl, same, access)
  after_rotate_ok u stored plain (w, err e) r h = elim (Bool-cases e.already_used) [
    | inl lost ↦ absurd (fails_ok (revoke_family_for_reuse ports cfg w stored) r (rw lost at h))
    | inr other ↦ let bad = rw other at h in cc
  ]

  after_random_ok :
      (hash : Text) (u : User) (stored : RefreshToken) (v : W) (x : W × Result Text Fault)
      (r : TokenResponse)
      → generate_random_token ports v ≡ x
      → (after_random ports cfg hash u stored x).1 ≡ ok r
      → IsExchanged v hash u stored r
  after_random_ok hash u stored v (w, err e) r drawn h = cc
  after_random_ok hash u stored v (w, ok plain) r drawn h =
      let (v', now) = ports.now w in
      let (done, same, access) = after_rotate_ok u stored plain _ r h in
      let after = (ports.rotate v' hash (replacement u stored plain now)).0 in
      record {
        drawn_in = w;
        drawn = drawn ∙ ap (λ p. (w, ok p)) same;
        after = after;
        rotated =
            subst (λ p. ports.rotate v' hash (replacement u stored p now) ≡ (after, ok tt)) same
              done;
        access = access;
      }

  after_user_ok :
      (hash : Text) (stored : RefreshToken) (x : W × Result User Fault) (r : TokenResponse)
      → (after_user ports cfg hash stored x).1 ≡ ok r
      → (u : User) × (x.1 ≡ ok u) × IsExchanged x.0 hash u stored r
  after_user_ok hash stored (w, err e) r h = cc
  after_user_ok hash stored (w, ok u) r h =
      (u, refl, after_random_ok hash u stored w (generate_random_token ports w) r refl h)

  if_found_ok :
      (hash : Text) (x : W × Result (Option RefreshToken) Fault) (r : TokenResponse)
      → (if_found ports cfg hash x).1 ≡ ok r
      → (stored : RefreshToken) × (u : User) × (x.1 ≡ ok (some stored))
        × ((ports.find_by_id x.0 stored.user_id).1 ≡ ok u)
        × IsExchanged (ports.find_by_id x.0 stored.user_id).0 hash u stored r
  if_found_ok hash (w, err e) r h =
      absurd (fails_ok (handle_unusable_refresh_token ports cfg w hash) r h)
  if_found_ok hash (w, ok none) r h =
      absurd (fails_ok (handle_unusable_refresh_token ports cfg w hash) r h)
  if_found_ok hash (w, ok (some stored)) r h =
      let (u, found, done) = after_user_ok hash stored (ports.find_by_id w stored.user_id) r h in
      (stored, u, refl, found, done)

  -- A refresh that gives tokens was asked with a token that is not empty and that FindValid found, and
  -- found its owner. Rotate of that token's hash succeeded, and what it stored in its place is the
  -- hash of the refresh token that is answered, for that owner, in the family of the old one; the
  -- access token that is answered was issued for that owner.
  pub refresh_ok :
      (w : W) (token : Text) (r : TokenResponse)
      → (refresh ports cfg w token).1 ≡ ok r
      → (stored : RefreshToken) × (u : User) × (token ≢ [])
        × let valid = ports.find_valid w (ports.hash_token token) in
          let owner = ports.find_by_id valid.0 stored.user_id in
          (valid.1 ≡ ok (some stored))
          × (owner.1 ≡ ok u)
          × IsExchanged owner.0 (ports.hash_token token) u stored r
  unfolding refresh
  refresh_ok w [] r h = cc
  refresh_ok w (b ∷ s) r h =
      let hash = ports.hash_token (b ∷ s) in
      let (stored, u, valid, found, done) = if_found_ok hash (ports.find_valid w hash) r h in
      (stored, u, (λ e. cc), (valid, found, done))
