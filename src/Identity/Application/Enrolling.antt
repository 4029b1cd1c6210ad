-- ===== src/Identity/Application/Enrolling.antt =====
-- SetupMFA and VerifyMFASetup of modules/identity/application.
use mathlib.Core.Path.{subst}
use kopiochi.Prelude.{
  ℕ, zero, suc, ◌≡◌, ◌≢◌, refl, ap, inl, inr, Bool, true, false, List, [], Text, is_empty, length,
  arith, Bool-cases,
}
use kopiochi.Notification.Domain.Types.{Result, ok, err}
use kopiochi.Identity.Domain.{User}
use kopiochi.Identity.Application.Ports.{Config, MfaSetupResponse, Fault, Ports}
use kopiochi.Identity.Application.Mfa.{
  setup_for, after_secret, after_setup_save, setup_mfa, and_code, after_hash, backup_codes,
  after_enable, after_codes_stored, after_codes, if_code_valid, confirm_for, verify_mfa_setup,
}

module _ {W : Type 0} (ports : Ports W) (cfg : Config) where
  and_code_ok :
      (code hash : Text) (x : W × Result (List Text × List Text) Fault) (n : ℕ) (cs hs : List Text)
      → ((cs' hs' : List Text) → x.1 ≡ ok (cs', hs') → (length cs' ≡ n) × (length hs' ≡ n))
      → (and_code ports cfg code hash x).1 ≡ ok (cs, hs)
      → (length cs ≡ suc n) × (length hs ≡ suc n)
  and_code_ok code hash (w, err e) n cs hs rest h = cc
  and_code_ok code hash (w, ok (cs', hs')) n cs hs rest h =
      let (a, b) = rest cs' hs' refl in ground arith

  after_hash_ok :
      (code : Text) (f : W → W × Result (List Text × List Text) Fault) (x : W × Result Text Fault)
      (n : ℕ) (cs hs : List Text)
      → ((v : W) (cs' hs' : List Text)
          → (f v).1 ≡ ok (cs', hs')
          → (length cs' ≡ n) × (length hs' ≡ n))
      → (after_hash ports cfg code f x).1 ≡ ok (cs, hs)
      → (length cs ≡ suc n) × (length hs ≡ suc n)
  after_hash_ok code f (w, err e) n cs hs rest h = cc
  after_hash_ok code f (w, ok hash) n cs hs rest h = and_code_ok code hash (f w) n cs hs (rest w) h

  backup_codes-length :
      (n : ℕ) (w : W) (cs hs : List Text)
      → (backup_codes ports cfg n w).1 ≡ ok (cs, hs)
      → (length cs ≡ n) × (length hs ≡ n)
  unfolding backup_codes
  backup_codes-length zero w cs hs h = ground arith
  backup_codes-length (suc n) w cs hs h =
      after_hash_ok _ (backup_codes ports cfg n) _ n cs hs (λ v. backup_codes-length n v) h

  after_enable_ok :
      (id : Text) (codes : List Text) (x : W × Result (Unit {0}) Fault) (cs : List Text)
      → (after_enable ports cfg id codes x).1 ≡ ok cs
      → (x.1 ≡ ok tt) × (codes ≡ cs)
  after_enable_ok id codes (w, err e) cs h = cc
  after_enable_ok id codes (w, ok done) cs h = (refl, ground arith)

  after_codes_stored_ok :
      (id : Text) (u : User) (codes : List Text) (x : W × Result (Unit {0}) Fault) (cs : List Text)
      → (after_codes_stored ports cfg id u codes x).1 ≡ ok cs
      → (x.1 ≡ ok tt)
        × ((ports.save_user x.0 (record u { mfa_enabled = true })).1 ≡ ok tt)
        × (codes ≡ cs)
  after_codes_stored_ok id u codes (w, err e) cs h = cc
  after_codes_stored_ok id u codes (w, ok done) cs h =
      let (saved, same) = after_enable_ok id codes _ cs h in (refl, saved, same)

  -- The codes are stored and the user is saved with the factor enabled.
  abbrev pub Enables : Text → User → List Text → Type 0
  Enables id u cs =
      (v : W) × (hashes : List Text) × (length hashes ≡ 8)
      × let stored = ports.store_backup_codes v id hashes in
        (stored.1 ≡ ok tt)
        × ((ports.save_user stored.0 (record u { mfa_enabled = true })).1 ≡ ok tt)

  after_codes_ok :
      (id : Text) (u : User) (w : W) (x : W × Result (List Text × List Text) Fault) (cs : List Text)
      → backup_codes ports cfg 8 w ≡ x
      → (after_codes ports cfg id u x).1 ≡ ok cs
      → (length cs ≡ 8) × Enables id u cs
  after_codes_ok id u w (v, err e) cs made h = cc
  after_codes_ok id u w (v, ok (codes, hashes)) cs made h =
      let (a, b) = backup_codes-length 8 w codes hashes (rw made refl) in
      let (stored, saved, same) = after_codes_stored_ok id u codes _ cs h in
      (rw⁻¹ same a, (v, hashes, b, (stored, saved)))

  if_code_valid_ok :
      (id : Text) (u : User) (x : W × Bool) (cs : List Text)
      → (if_code_valid ports cfg id u x).1 ≡ ok cs
      → (x.1 ≡ true) × (length cs ≡ 8) × Enables id u cs
  if_code_valid_ok id u (w, false) cs h = cc
  if_code_valid_ok id u (w, true) cs h =
      let (eight, on) = after_codes_ok id u w _ cs refl h in (refl, eight, on)

  confirm_for_ok :
      (id code : Text) (x : W × Result User Fault) (cs : List Text)
      → (confirm_for ports cfg id code x).1 ≡ ok cs
      → (u : User) × (x.1 ≡ ok u)
        × (u.mfa_secret ≢ [])
        × ((ports.validate_code x.0 u.mfa_secret code).1 ≡ true)
        × (length cs ≡ 8)
        × Enables id u cs
  confirm_for_ok id code (w, err e) cs h = cc
  confirm_for_ok id code (w, ok u) cs h = elim (Bool-cases (is_empty u.mfa_secret)) [
    | inl nothing ↦ let bad = rw nothing at h in cc
    | inr secret ↦
        let (valid, eight, on) = if_code_valid_ok id u _ cs (rw secret at h) in
        (u, refl, (λ e. (let b = ap is_empty e in cc)), valid, eight, on)
  ]

  -- VerifyMFASetup enables a second factor only for a user whose secret is not empty and who gave a
  -- code that is valid for it. It answers eight backup codes, and it stored eight hashes and saved the
  -- user with the factor enabled, in this order, before it answered.
  verify_mfa_setup_ok :
      (w : W) (id code : Text) (cs : List Text)
      → (verify_mfa_setup ports cfg w id code).1 ≡ ok cs
      → (u : User) × ((ports.find_by_id w id).1 ≡ ok u)
        × (u.mfa_secret ≢ [])
        × ((ports.validate_code (ports.find_by_id w id).0 u.mfa_secret code).1 ≡ true)
        × (length cs ≡ 8)
        × Enables id u cs
  unfolding verify_mfa_setup
  verify_mfa_setup_ok w id code cs h = confirm_for_ok id code (ports.find_by_id w id) cs h

  after_setup_save_ok :
      (secret qr : Text) (x : W × Result (Unit {0}) Fault) (r : MfaSetupResponse)
      → (after_setup_save ports cfg secret qr x).1 ≡ ok r
      → (x.1 ≡ ok tt) × (secret ≡ r.secret) × ((after_setup_save ports cfg secret qr x).0 ≡ x.0)
  after_setup_save_ok secret qr (w, err e) r h = cc
  after_setup_save_ok secret qr (w, ok done) r h = (refl, ground arith, refl)

  -- The last write of a setup: the user, with the new secret and the flag as it was.
  abbrev pub SavesSecret : User → Text → W → Type 0
  SavesSecret u secret after =
      (v : W) × ((ports.save_user v (record u { mfa_secret = secret })).1 ≡ ok tt)
      × (after ≡ (ports.save_user v (record u { mfa_secret = secret })).0)

  after_secret_ok :
      (u : User) (x : W × Result (Text × Text) Fault) (r : MfaSetupResponse)
      → (after_secret ports cfg u x).1 ≡ ok r
      → SavesSecret u r.secret (after_secret ports cfg u x).0
  after_secret_ok u (w, err e) r h = cc
  after_secret_ok u (w, ok (secret, qr)) r h =
      let (done, same, last) = after_setup_save_ok secret qr _ r h in
      subst (λ s. SavesSecret u s (after_secret ports cfg u (w, ok (secret, qr))).0) same
        (w, done, last)

  setup_for_ok :
      (x : W × Result User Fault) (r : MfaSetupResponse)
      → (setup_for ports cfg x).1 ≡ ok r
      → (u : User) × (x.1 ≡ ok u) × SavesSecret u r.secret (setup_for ports cfg x).0
  setup_for_ok (w, err e) r h = cc
  setup_for_ok (w, ok u) r h = (u, refl, after_secret_ok u (ports.generate_secret w u.email) r h)

  -- A successful SetupMFA overwrites the secret of whatever user it finds, before any code for the new
  -- one was seen, and leaves the flag as it was: on an account whose second factor is on, the
  -- unconfirmed secret replaces the one that was confirmed.
  setup_mfa_ok :
      (w : W) (id : Text) (r : MfaSetupResponse)
      → (setup_mfa ports cfg w id).1 ≡ ok r
      → (u : User) × ((ports.find_by_id w id).1 ≡ ok u)
        × SavesSecret u r.secret (setup_mfa ports cfg w id).0
  unfolding setup_mfa
  setup_mfa_ok w id r h = setup_for_ok (ports.find_by_id w id) r h
