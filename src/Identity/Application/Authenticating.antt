-- ===== src/Identity/Application/Authenticating.antt =====
-- What a Login of modules/identity/application that gives tokens had checked.
use mathlib.Core.Path.{subst}
use kopiochi.Prelude.{
  ◌≡◌, refl, ◌⊎◌, inl, inr, pos, ltb_ℤ, Bool, true, false, none, some, Text, Bool-cases,
  Option-cases, if◌then◌else◌,
}
use kopiochi.Notification.Domain.Types.{Result, ok, err}
use kopiochi.Identity.Domain.{Time, User, is_locked, reset_failed_logins}
use kopiochi.Identity.Application.Ports.{
  Config, LoginRequest, TokenResponse, Fault, invalid_credentials, account_locked, Ports, Answer,
}
use kopiochi.Identity.Application.Login.{
  check_lock, issue_full_tokens, after_issue, after_reset, require_mfa, after_find, reject_password,
  login,
}
use kopiochi.Identity.Application.Granting.{IsIssued, issue_full_tokens_ok}

module _ {W : Type 0} (ports : Ports W) (cfg : Config) where
  -- The user has no lock, or one whose end the clock, read once more, had reached.
  abbrev pub IsFree : W → User → Type 0
  IsFree w u =
      (u.locked_until ≡ none)
      ⊎ ((until : Time) × (u.locked_until ≡ some until) × (ltb_ℤ (ports.now w).1 until ≡ false))

  check_lock-IsFree : (w : W) (u : User) → (check_lock ports cfg w u).1 ≡ false → IsFree w u
  unfolding is_locked
  check_lock-IsFree w u h = elim (Option-cases u.locked_until) [
    | inl free ↦ inl free
    | inr (until, e) ↦ inr (until, e, rw e at h)
  ]

  -- The user of the name was found, was not locked, and the password is theirs.
  pub record IsVerified (w : W) (req : LoginRequest) (u : User) : Type 0 where
    pub found : (ports.find_by_username w req.username).1 ≡ ok u
    pub unlocked : IsFree (ports.find_by_username w req.username).0 u
    pub password : ports.verify_password req.password u.password_hash ≡ true

  -- The world in which a verified user's counter is reset: the clock is read if there is a lock.
  abbrev pub verified_world : W → LoginRequest → User → W
  verified_world w req u =
      let found = (ports.find_by_username w req.username).0 in
      elim u.locked_until [ none ↦ found | some until ↦ (ports.now found).0 ]

  -- What becomes of a user whose password was right.
  abbrev pub past_password : W → LoginRequest → User → Answer ports TokenResponse
  past_password w req u = after_reset ports cfg (reset_failed_logins u) (
      ports.save_user (check_lock ports cfg (ports.find_by_username w req.username).0 u).0
        (reset_failed_logins u))

  check_lock-verified_world :
      (w : W) (req : LoginRequest) (u : User)
      → (check_lock ports cfg (ports.find_by_username w req.username).0 u).0
        ≡ verified_world w req u
  check_lock-verified_world w req u = elim (Option-cases u.locked_until) [
    | inl free ↦ rw free refl
    | inr (until, e) ↦ rw e refl
  ]

  rejected :
      (w : W) (name : Text) (u : User)
      → (reject_password ports cfg w name u).1 ≡ err invalid_credentials
  unfolding reject_password
  rejected w name u = refl

  -- What comes after a lookup: a refusal, or what comes after the right password of a free account.
  after_find-cases :
      (req : LoginRequest) (x : W × Result User Fault)
      → ((after_find ports cfg req x).1 ≡ err invalid_credentials)
        ⊎ (((after_find ports cfg req x).1 ≡ err account_locked)
            ⊎ ((u : User) × (x.1 ≡ ok u)
                × ((check_lock ports cfg x.0 u).1 ≡ false)
                × (ports.verify_password req.password u.password_hash ≡ true)
                × (after_find ports cfg req x
                    ≡ after_reset ports cfg
                        (reset_failed_logins u)
                        (ports.save_user (check_lock ports cfg x.0 u).0 (reset_failed_logins u)))))
  after_find-cases req (v, err e) = inl refl
  after_find-cases req (v, ok u) = elim (Bool-cases (check_lock ports cfg v u).1) [
    | inl locked ↦ inr (inl (rw locked))
    | inr free ↦ elim (Bool-cases (ports.verify_password req.password u.password_hash)) [
      | inl good ↦ inr (inr (u, refl, free, good, rw (free, good)))
      | inr bad ↦ inl (rw (free, bad) (rejected (check_lock ports cfg v u).0 req.username u))
    ]
  ]

  -- The answers of Login: a refusal, or what comes after the password.
  login-cases :
      (w : W) (req : LoginRequest)
      → ((login ports cfg w req).1 ≡ err invalid_credentials)
        ⊎ (((login ports cfg w req).1 ≡ err account_locked)
            ⊎ ((u : User) × IsVerified w req u × (login ports cfg w req ≡ past_password w req u)))
  unfolding login
  login-cases w req = elim (after_find-cases req (ports.find_by_username w req.username)) [
    | inl bad ↦ inl bad
    | inr other ↦ elim other [
      | inl locked ↦ inr (inl locked)
      | inr (u, found, free, good, e) ↦ inr (
          inr (
            u,
            record { found = found; unlocked = check_lock-IsFree _ u free; password = good },
            e,
          ))
    ]
  ]

  -- Which of two answers an if gave.
  if_ok :
      (b : Bool) (x y : Answer ports TokenResponse) (r : TokenResponse)
      → (if b then x else y).1 ≡ ok r
      → ((b ≡ true) × (x.1 ≡ ok r)) ⊎ ((b ≡ false) × (y.1 ≡ ok r))
  if_ok true x y r h = inl (refl, h)
  if_ok false x y r h = inr (refl, h)

  require_mfa_ok :
      (u : User) (x : W × Result Text Fault) (r : TokenResponse)
      → (require_mfa ports cfg u x).1 ≡ ok r
      → ⊥
  require_mfa_ok u (w, err e) r h = cc
  require_mfa_ok u (w, ok token) r h = cc

  after_issue_ok :
      (u : User) (x : Answer ports TokenResponse) (r : TokenResponse)
      → (after_issue ports cfg u x).1 ≡ ok r
      → x.1 ≡ ok r
  after_issue_ok u (w, err e) r h = h
  after_issue_ok u (w, ok s) r h = h

  after_reset_ok :
      (u : User) (x : W × Result (Unit {0}) Fault) (r : TokenResponse)
      → (after_reset ports cfg u x).1 ≡ ok r
      → (x.1 ≡ ok tt) × (u.mfa_enabled ≡ false) × ((issue_full_tokens ports cfg x.0 u).1 ≡ ok r)
  after_reset_ok u (w, err e) r h = cc
  after_reset_ok u (w, ok done) r h =
      let issued = after_issue ports cfg u (issue_full_tokens ports cfg w u) in
      elim (if_ok u.mfa_enabled (require_mfa ports cfg u (ports.issue_mfa_token w u)) issued r h) [
        | inl (on, k) ↦ absurd (require_mfa_ok u (ports.issue_mfa_token w u) r k)
        | inr (off, k) ↦ (refl, off, after_issue_ok u (issue_full_tokens ports cfg w u) r k)
      ]

  -- The user as it is saved once its counter is reset.
  abbrev pub cleared : User → User
  cleared u = record u { failed_login_attempts = pos 0; locked_until = none }

  -- Login gives tokens to no one but a user who was found by the name, had no lock or one whose end
  -- had come, gave the right password, who was saved with the counter at zero and no lock, and who
  -- has no second factor. The access token was issued for that user, and the refresh token's hash
  -- was stored as theirs.
  pub login_ok :
      (w : W) (req : LoginRequest) (r : TokenResponse)
      → (login ports cfg w req).1 ≡ ok r
      → (u : User) × IsVerified w req u
        × (u.mfa_enabled ≡ false)
        × let saved = ports.save_user (verified_world w req u) (cleared u) in
          (saved.1 ≡ ok tt) × IsIssued ports cfg saved.0 (cleared u) r
  unfolding reset_failed_logins
  login_ok w req r h = elim (login-cases w req) [
    | inl bad ↦ cc
    | inr other ↦ elim other [
      | inl locked ↦ cc
      | inr (u, v, e) ↦
          let (saved, single, issued) = after_reset_ok (reset_failed_logins u) _ r (rw e at h) in
          let at_free = check_lock-verified_world w req u in
          (
            u,
            v,
            single,
            subst
                (λ x.
                  let s = ports.save_user x (cleared u) in
                  (s.1 ≡ ok tt) × IsIssued ports cfg s.0 (cleared u) r)
                at_free (saved, issue_full_tokens_ok ports cfg _ (cleared u) r issued),
          )
    ]
  ]
