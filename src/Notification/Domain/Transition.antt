-- ===== src/Notification/Domain/Transition.antt =====
-- modules/notification/domain/notification.go: the transition table and `transitionTo`, against the
-- diagram of the comment on `Status` as a relation.
use kopiochi.Prelude.{
  ◌≡◌, refl, ◌↔◌, ◌⊎◌, inl, inr, Bool-cases, Bool, true, false, ◌&&◌, ◌||◌, Option, none, some,
  List, [], ◌∷◌, if◌then◌else◌,
}
use kopiochi.Notification.Domain.Types.{
  Status, pending, sending, sent, failed, dead, same_status, DomainError, invalid_transition,
  Notification,
}

-- allowedTransitions
abbrev pub allowed_transitions : List (Status × Status)
allowed_transitions =
    (pending, sending)
    ∷ (sending, sent)
    ∷ (sending, failed)
    ∷ (sending, dead)
    ∷ (sending, pending)
    ∷ (failed, pending)
    ∷ (failed, dead)
    ∷ []

-- `_, ok := table[transition{from, to}]`
abbrev is_listed : Status → Status → List (Status × Status) → Bool
is_listed from to [] = false
is_listed from to ((a, b) ∷ rest) = same_status from a && same_status to b || is_listed from to rest

unfoldable pub is_allowed : Status → Status → Bool
is_allowed from to = is_listed from to allowed_transitions

-- transitionTo: the row, written in place, and the error.
unfoldable pub transition_to : Notification → Status → Notification × Option DomainError
unfolding is_allowed
transition_to n next =
    if is_allowed n.status next
    then (record n { status = next }, none)
    else (n, some invalid_transition)

infix 40 ◌⟶◌
pub data ◌⟶◌ : Status → Status → Type 0 where
  claim : pending ⟶ sending
  deliver : sending ⟶ sent
  fail : sending ⟶ failed
  give_up : sending ⟶ dead
  recover : sending ⟶ pending
  retry : failed ⟶ pending
  exhaust : failed ⟶ dead

pub ruleset arrows = (claim, deliver, fail, give_up, recover, retry, exhaust)

⟶-is_allowed : {s t : Status} → s ⟶ t → is_allowed s t ≡ true
unfolding is_allowed
⟶-is_allowed claim = refl
⟶-is_allowed deliver = refl
⟶-is_allowed fail = refl
⟶-is_allowed give_up = refl
⟶-is_allowed recover = refl
⟶-is_allowed retry = refl
⟶-is_allowed exhaust = refl

is_allowed-⟶ : (s t : Status) → is_allowed s t ≡ true → s ⟶ t
unfolding is_allowed
is_allowed-⟶ pending sending h = claim
is_allowed-⟶ sending sent h = deliver
is_allowed-⟶ sending failed h = fail
is_allowed-⟶ sending dead h = give_up
is_allowed-⟶ sending pending h = recover
is_allowed-⟶ failed pending h = retry
is_allowed-⟶ failed dead h = exhaust
is_allowed-⟶ _ _ h = cc

-- The table admits a move exactly when the diagram has the arrow.
pub is_allowed_iff : (s t : Status) → (is_allowed s t ≡ true) ↔ (s ⟶ t)
is_allowed_iff s t = (is_allowed-⟶ s t, ⟶-is_allowed)

absurd_arrow : {s t : Status} → s ⟶ t → is_allowed s t ≡ false → ⊥
absurd_arrow a h = let e = ⟶-is_allowed a in cc

-- A transition is taken exactly along an arrow of the diagram, and then changes the status alone;
-- a refused one leaves the whole row as it was.
transition_to_lem :
    (n : Notification) (next : Status)
    → ((n.status ⟶ next) × (transition_to n next ≡ (record n { status = next }, none)))
      ⊎ (¬ (n.status ⟶ next) × (transition_to n next ≡ (n, some invalid_transition)))
unfolding transition_to
transition_to_lem n next = elim (Bool-cases (is_allowed n.status next)) [
  | inl yes_ ↦ inl (is_allowed-⟶ n.status next yes_, rw (yes_, transition_to))
  | inr no_ ↦ inr ((λ a. absurd_arrow a no_), rw (no_, transition_to))
]
