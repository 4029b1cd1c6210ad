-- ===== src/Notification/Application/Setup/Routing.antt =====
-- What a service that NewService of modules/notification/application/service.go built routes to.
use mathlib.Core.Bool.{true≢false}
use kopiochi.Prelude.{
  ℕ, suc, ◌≤◌, ◌≡◌, refl, sym, ◌∙◌, true, false, Option, none, some, List, [], ◌∷◌, arith, inl, inr,
  Bool-cases, if◌then◌else◌, All,
}
use kopiochi.Notification.Domain.Types.{Channel, valid_channel, same_channel, same_channel→eq, ok}
use kopiochi.Notification.Application.Setup.{
  Required, find_sender, is_present, register, new_service,
}

module _ {ℓ} {S : Type ℓ} where
  -- A sender that is there and claims a known channel.
  abbrev pub IsUsable : Option (Channel × S) → Type 0
  IsUsable none = ⊥
  IsUsable (some (ch, s)) = valid_channel ch ≡ true

  -- The sender that claims a channel, where only one does; and how many do.
  unfoldable pub claimant : Channel → List (Option (Channel × S)) → Option S
  claimant ch [] = none
  claimant ch (none ∷ senders) = claimant ch senders
  claimant ch (some (c, s) ∷ senders) =
      let rest = claimant ch senders in if same_channel c ch then some s else rest

  unfoldable pub claims : Channel → List (Option (Channel × S)) → ℕ
  claims ch [] = 0
  claims ch (none ∷ senders) = claims ch senders
  claims ch (some (c, s) ∷ senders) =
      let rest = claims ch senders in if same_channel c ch then suc rest else rest

  abbrev or_else : Option S → Option S → Option S
  or_else none o = o
  or_else (some s) o = some s

  -- A channel that the registry has is claimed no more.
  abbrev Registered : List (Channel × S) → List (Option (Channel × S)) → List (Channel × S) → Type ℓ
  Registered registry senders out =
      (ch : Channel)
      → (find_sender ch out ≡ or_else (claimant ch senders) (find_sender ch registry))
        × (claims ch senders ≤ 1)
        × (is_present (find_sender ch registry) ≡ true → claims ch senders ≡ 0)

  unclaimed :
      (ch : Channel) (senders : List (Option (Channel × S)))
      → claims ch senders ≡ 0
      → claimant ch senders ≡ none
  unfolding claimant claims
  unclaimed ch [] h = refl
  unclaimed ch (none ∷ senders) h = unclaimed ch senders h
  unclaimed ch (some (c, s) ∷ senders) h = elim (Bool-cases (same_channel c ch)) [
    | inl hit ↦ let bad = rw hit at h in absurd (omega arith)
    | inr miss ↦ rw miss (unclaimed ch senders (rw miss at h))
  ]

  -- One more sender, of a channel that the registry does not have.
  Registered-cons :
      (c : Channel) (s : S) (registry : List (Channel × S)) (senders : List (Option (Channel × S)))
      (out : List (Channel × S))
      → is_present (find_sender c registry) ≡ false
      → Registered ((c, s) ∷ registry) senders out
      → Registered registry (some (c, s) ∷ senders) out
  unfolding find_sender claimant claims
  Registered-cons c s registry senders out new rest ch = elim (Bool-cases (same_channel c ch)) [
    | inr miss ↦ let r = rest ch in rw miss (rw miss at r)
    | inl hit ↦
        let same = same_channel→eq c ch hit in
        let r = rest ch in
        let (found, few, no_more) = rw hit at r in
        let done = no_more refl in
        let absent = rw same at new in
        rw hit (
          found ∙ rw (unclaimed ch senders done),
          omega arith,
          λ k. absurd (true≢false (sym k ∙ absent)),
        )
  ]

  register_ok :
      (i : ℕ) (registry : List (Channel × S)) (senders : List (Option (Channel × S)))
      (out : List (Channel × S))
      → register i registry senders ≡ ok out
      → All IsUsable senders × Registered registry senders out
  unfolding register find_sender claimant claims
  register_ok i registry [] out h = (tt, λ ch. (ground arith, omega arith, λ k. refl))
  register_ok i registry (none ∷ senders) out h = cc
  register_ok i registry (some (c, s) ∷ senders) out h = elim (Bool-cases (valid_channel c)) [
    | inr unknown ↦ let bad = rw unknown at h in cc
    | inl known ↦ elim (Bool-cases (is_present (find_sender c registry))) [
      | inl twice ↦ let bad = rw (known, twice) at h in cc
      | inr new ↦
          let (usable, rest) =
            register_ok (suc i) ((c, s) ∷ registry) senders out (rw (known, new) at h) in
          ((known, usable), Registered-cons c s registry senders out new rest)
    ]
  ]

  -- A service that NewService builds has all of its required collaborators, and routes exactly: no sender
  -- that it was given is nil or claims an unknown channel, no two claim one channel, and the sender
  -- that it has for a channel is the one that claims it, or none if none does.
  new_service_ok :
      (given : Required) (senders : List (Option (Channel × S))) (registry : List (Channel × S))
      (ch : Channel)
      → new_service given senders ≡ ok registry
      → (given ≡ record {
        has_notifications = true;
        has_preferences = true;
        has_renderer = true;
        has_clock = true;
      })
        × All IsUsable senders
        × (claims ch senders ≤ 1)
        × (find_sender ch registry ≡ claimant ch senders)
  unfolding new_service find_sender
  new_service_ok given senders registry ch h =
      let (complete, made) = all_given given h in
      let (usable, routed) = register_ok 0 [] senders registry made in
      (complete, usable, (routed ch).1, (routed ch).0 ∙ or_none (claimant ch senders))
    where
      or_none : (o : Option S) → or_else o none ≡ o
      or_none none = refl
      or_none (some s) = refl

      all_given :
          (given : Required)
          → new_service given senders ≡ ok registry
          → (given ≡ record {
            has_notifications = true;
            has_preferences = true;
            has_renderer = true;
            has_clock = true;
          })
            × (register 0 [] senders ≡ ok registry)
      all_given given h = elim (Bool-cases given.has_notifications) [
        | inr off ↦ let bad = rw off at h in cc
        | inl a ↦ elim (Bool-cases given.has_preferences) [
          | inr off ↦ let bad = rw (a, off) at h in cc
          | inl b ↦ elim (Bool-cases given.has_renderer) [
            | inr off ↦ let bad = rw (a, b, off) at h in cc
            | inl c ↦ elim (Bool-cases given.has_clock) [
              | inr off ↦ let bad = rw (a, b, c, off) at h in cc
              | inl d ↦ (ground arith, rw (a, b, c, d) at h)
            ]
          ]
        ]
      ]
