-- ===== src/Notification/Transport/Protecting.antt =====
-- The preference handler of modules/notification/transport/handler.go refuses a body that would switch
-- off security mail.
use kopiochi.Prelude.{
  ℕ, suc, ◌≡◌, refl, ◌⊎◌, inl, inr, false, Bool-cases, some, Option-cases, List, [], ◌∷◌, ◌++◌,
  Text, codes, arith,
}
use kopiochi.Notification.Domain.Types.{
  Uuid, Time, email, security, DomainError, invalid_preference, preference_protected, Result, ok,
  err,
}
use kopiochi.Notification.Domain.Preference.{Preference, new_preference}
use kopiochi.Notification.Domain.Backoff.{Floats}
use kopiochi.Notification.Application.Ports.{PreferenceView, Ports}
use kopiochi.Notification.Application.Service
use kopiochi.Notification.Application.Service.{validate, names_pair}
use kopiochi.Notification.Application.Matrix.{asked}
use kopiochi.Platform.Problem.{Route, Response, failed}
use kopiochi.Notification.Transport.{
  missing_enabled, PreferencesResponse, Codec, PreferenceUpdateRequest, updates_from,
}
use kopiochi.Notification.Transport.Handler.{caller, update_preferences}

-- "No security mail", as the use case gets it and as the body has it.
abbrev pub silence : PreferenceView
silence = record { channel = email; category = security; enabled = false }

abbrev pub asked_silence : PreferenceUpdateRequest
asked_silence = record { channel = email; category = security; enabled = some false }

abbrev IsRefusal : Result (List Preference) DomainError → Type 0
IsRefusal x = (x ≡ err invalid_preference) ⊎ (x ≡ err preference_protected)

new_preference-cases :
    (user : Uuid) (u : PreferenceView) (now : Time)
    → (new_preference user u.channel u.category u.enabled now ≡ err invalid_preference)
      ⊎ ((new_preference user u.channel u.category u.enabled now ≡ err preference_protected)
          ⊎ (new_preference user u.channel u.category u.enabled now ≡ ok (asked user now u)))
unfolding new_preference
new_preference-cases user u now = ground arith

silence_refused :
    (user : Uuid) (now : Time)
    → (new_preference user email security false now ≡ err invalid_preference)
      ⊎ (new_preference user email security false now ≡ err preference_protected)
unfolding new_preference
silence_refused user now = ground arith

validate_refuses :
    (user : Uuid) (now : Time) (seen front back : List PreferenceView)
    → IsRefusal (validate user now seen (front ++ silence ∷ back))
unfolding validate
validate_refuses user now seen [] back = elim (Bool-cases (names_pair email security seen)) [
  | inl dup ↦ rw dup (inl refl)
  | inr fresh ↦ elim (silence_refused user now) [
    | inl e ↦ rw fresh (rw e (inl refl))
    | inr e ↦ rw fresh (rw e (inr refl))
  ]
]
validate_refuses user now seen (u ∷ front) back =
    elim (Bool-cases (names_pair u.channel u.category seen)) [
      | inl dup ↦ rw dup (inl refl)
      | inr fresh ↦ elim (new_preference-cases user u now) [
        | inl e ↦ rw fresh (rw e (inl refl))
        | inr (inl e) ↦ rw fresh (rw e (inr refl))
        | inr (inr e) ↦ elim (validate_refuses user now (u ∷ seen) front back) [
          | inl bad ↦ rw fresh (rw e (rw bad (inl refl)))
          | inr bad ↦ rw fresh (rw e (rw bad (inr refl)))
        ]
      ]
    ]

-- The body of such a request is refused where it says nothing of a pair, or asks for silence.
updates_keep :
    (i : ℕ) (front back : List PreferenceUpdateRequest)
    → ((j : ℕ) × (updates_from i (front ++ asked_silence ∷ back) ≡ err (missing_enabled j)))
      ⊎ ((before : List PreferenceView) × (after : List PreferenceView) × (updates_from i
              (front ++ asked_silence ∷ back)
            ≡ ok (before ++ silence ∷ after)))
unfolding updates_from
updates_keep i [] back = elim (answered (suc i) back) [
  | inl (j, e) ↦ inl (j, rw e refl)
  | inr (us, e) ↦ inr ([], us, rw e refl)
]
  where
    answered :
        (i : ℕ) (ps : List PreferenceUpdateRequest)
        → ((j : ℕ) × (updates_from i ps ≡ err (missing_enabled j)))
          ⊎ ((us : List PreferenceView) × (updates_from i ps ≡ ok us))
    answered i [] = inr ([], refl)
    answered i (p ∷ ps) = elim (Option-cases p.enabled) [
      | inl e ↦ inl (i, rw e refl)
      | inr (b, e) ↦ elim (answered (suc i) ps) [
        | inl (j, f) ↦ inl (j, rw e (rw f refl))
        | inr (us, f) ↦ inr (
          record { channel = p.channel; category = p.category; enabled = b } ∷ us,
          rw e (rw f refl),
        )
      ]
    ]
updates_keep i (p ∷ front) back = elim (Option-cases p.enabled) [
  | inl e ↦ inl (i, rw e refl)
  | inr (b, e) ↦ elim (updates_keep (suc i) front back) [
    | inl (j, f) ↦ inl (j, rw e (rw f refl))
    | inr (before, after, f) ↦ inr (
      record { channel = p.channel; category = p.category; enabled = b } ∷ before,
      after,
      rw e (rw f refl),
    )
  ]
]

module _ {W : Type 0} {fl : Floats} (ports : Ports W fl) (codec : Codec) (r : Route) where
  -- The problem that refuses a body: 400 for an entry that does not say whether it is on, 422 for a
  -- pair that is unknown or named twice, and 422 for a pair that cannot be switched off.
  abbrev pub incomplete : Response PreferencesResponse
  incomplete = failed [] (record {
    kind = codes "invalid_request";
    title = codes "Bad Request";
    status = 400;
    detail = codes "the request could not be understood";
    instance_path = r.path;
    request_id = r.request_id;
  })

  abbrev pub unprocessable : Text → Text → Text → Response PreferencesResponse
  unprocessable kind title detail = failed [] (record {
    kind = kind;
    title = title;
    status = 422;
    detail = detail;
    instance_path = r.path;
    request_id = r.request_id;
  })

  abbrev pub unknown_pair : Response PreferencesResponse
  unknown_pair =
      unprocessable (codes "invalid_preference") (codes "Invalid Preference")
        (codes "A preference names an unknown channel or category, or the same pair twice.")

  abbrev pub protected_pair : Response PreferencesResponse
  protected_pair =
      unprocessable (codes "preference_protected") (codes "Preference Is Protected")
        (codes "Security notifications by email cannot be switched off.")

  -- Whatever else a body asks for: one that switches off security mail is answered with the problem of
  -- status 400 or one of the two of status 422, and nothing is written: the world is as it was, or the
  -- clock was read.
  pub update_preferences_protected :
      (w : W) (subject body : Text) (user : Uuid) (front back : List PreferenceUpdateRequest)
      → caller codec subject ≡ some user
      → codec.decode_body body ≡ some (front ++ asked_silence ∷ back)
      → (((update_preferences ports codec r w subject body).0 ≡ w)
          × ((update_preferences ports codec r w subject body).1 ≡ incomplete))
        ⊎ (((update_preferences ports codec r w subject body).0 ≡ (ports.now w).0)
            × (((update_preferences ports codec r w subject body).1 ≡ unknown_pair)
                ⊎ ((update_preferences ports codec r w subject body).1 ≡ protected_pair)))
  unfolding update_preferences Service.update_preferences
  update_preferences_protected w subject body user front back known decoded =
      elim (updates_keep 0 front back) [
        | inl (i, e) ↦ inl (rw (known, decoded) (rw e refl), rw (known, decoded) (rw e refl))
        | inr (before, after, e) ↦ elim (validate_refuses user (ports.now w).1 [] before after) [
          | inl bad ↦ inr (
            rw (known, decoded) (rw e (rw bad refl)),
            inl (rw (known, decoded) (rw e (rw bad refl))),
          )
          | inr bad ↦ inr (
            rw (known, decoded) (rw e (rw bad refl)),
            inr (rw (known, decoded) (rw e (rw bad refl))),
          )
        ]
      ]
