-- ===== src/Identity/Application/Granting.antt =====
-- What issueFullTokens of modules/identity/application/login.go had done when it gives tokens.
use mathlib.Core.Path.{subst}
use kopiochi.Prelude.{◌≡◌, refl, ap, ◌∙◌, ◌+ℤ◌, false, [], Text, arith}
use kopiochi.Notification.Domain.Types.{Result, ok, err}
use kopiochi.Identity.Domain.{User}
use kopiochi.Identity.Application.Ports.{Config, TokenResponse, Fault, Ports, generate_random_token}
use kopiochi.Identity.Application.Login.{after_store, after_random, after_access, issue_full_tokens}

module _ {W : Type 0} (ports : Ports W) (cfg : Config) where
  -- The refresh token that is stored for a user once its text is drawn: its hash, live, of no family
  -- yet, with its lifetime from the clock that is read before it is stored.
  abbrev pub IsStored : User → W → Text → Type 0
  IsStored u drawn_in plain =
      let clock = ports.now drawn_in in
      (ports.store clock.0 (record {
        user_id = ports.uuids.to_text u.id;
        token_hash = ports.hash_token plain;
        expires_at = clock.1 +ℤ cfg.refresh_token_ttl;
        family_id = [];
        used = false;
        revoked = false;
      })).1
      ≡ ok tt

  -- The tokens of an answer are the user's: the access token was issued for them, then, behind the
  -- identity token, the refresh token was drawn, and its hash was stored as theirs.
  pub record IsIssued (w : W) (u : User) (r : TokenResponse) : Type 0 where
    pub access : (ports.issue_access_token w u cfg.access_token_ttl).1 ≡ ok r.access_token
    pub drawn_in : W
    pub drawn :
        generate_random_token ports
          (ports.issue_id_token
            (ports.issue_access_token w u cfg.access_token_ttl).0
            u
            cfg.client_id).0
        ≡ (drawn_in, ok r.refresh_token)
    pub stored : IsStored u drawn_in r.refresh_token

  after_store_ok :
      (access plain id_token : Text) (x : W × Result (Unit {0}) Fault) (r : TokenResponse)
      → (after_store ports cfg access plain id_token x).1 ≡ ok r
      → (x.1 ≡ ok tt) × (access ≡ r.access_token) × (plain ≡ r.refresh_token)
  after_store_ok access plain id_token (w, err e) r h = cc
  after_store_ok access plain id_token (w, ok done) r h = (refl, ground arith, ground arith)

  after_random_ok :
      (u : User) (access id_token : Text) (v : W) (x : W × Result Text Fault) (r : TokenResponse)
      → generate_random_token ports v ≡ x
      → (after_random ports cfg u access id_token x).1 ≡ ok r
      → (access ≡ r.access_token)
        × (d : W) × (generate_random_token ports v ≡ (d, ok r.refresh_token))
        × IsStored u d r.refresh_token
  after_random_ok u access id_token v (w, err e) r drawn h = cc
  after_random_ok u access id_token v (w, ok plain) r drawn h =
      let (stored, same, kept) = after_store_ok access plain id_token _ r h in
      (same, w, drawn ∙ ap (λ p. (w, ok p)) kept, subst (IsStored u w) kept stored)

  after_access_ok :
      (u : User) (x : W × Result Text Fault) (r : TokenResponse)
      → (after_access ports cfg u x).1 ≡ ok r
      → (x.1 ≡ ok r.access_token)
        × (d : W) × (generate_random_token ports (ports.issue_id_token x.0 u cfg.client_id).0
            ≡ (d, ok r.refresh_token))
        × IsStored u d r.refresh_token
  after_access_ok u (w, err e) r h = cc
  after_access_ok u (w, ok access) r h =
      let (same, d, drawn, stored) = after_random_ok u access _ _ _ r refl h in
      (ap ok same, d, drawn, stored)

  pub issue_full_tokens_ok :
      (w : W) (u : User) (r : TokenResponse)
      → (issue_full_tokens ports cfg w u).1 ≡ ok r
      → IsIssued w u r
  unfolding issue_full_tokens
  issue_full_tokens_ok w u r h =
      let (access, d, drawn, stored) = after_access_ok u _ r h in
      record { access = access; drawn_in = d; drawn = drawn; stored = stored }
