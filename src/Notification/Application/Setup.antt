-- ===== src/Notification/Application/Setup.antt =====
-- NewService of modules/notification/application/service.go: which senders a service is built from.
pub mod Routing
use kopiochi.Prelude.{
  ℕ, suc, Bool, true, false, not, Option, none, some, List, [], ◌∷◌, if◌then◌else◌,
}
use kopiochi.Notification.Domain.Types.{Channel, valid_channel, same_channel, Result, ok, err}

-- Which of the required collaborators are set.
pub record Required : Type 0 where
  pub has_notifications : Bool
  pub has_preferences : Bool
  pub has_renderer : Bool
  pub has_clock : Bool

pub data SetupError : Type 0 where
  no_notifications no_preferences no_renderer no_clock : SetupError
  nil_sender : ℕ → SetupError
  unknown_claimed : ℕ → Channel → SetupError
  two_senders : Channel → SetupError

module _ {ℓ} {S : Type ℓ} where
  -- The registry: a map from a channel to its sender. An entry that is written last is found first,
  -- and no channel is written twice.
  unfoldable pub find_sender : Channel → List (Channel × S) → Option S
  find_sender ch [] = none
  find_sender ch ((c, s) ∷ registry) =
      let rest = find_sender ch registry in if same_channel c ch then some s else rest

  abbrev pub is_present : Option S → Bool
  is_present none = false
  is_present (some s) = true

  -- The loop over the senders, each with the channel that it claims; a nil sender is `none`.
  unfoldable pub register :
      ℕ → List (Channel × S) → List (Option (Channel × S)) → Result (List (Channel × S)) SetupError
  unfolding find_sender
  register i registry [] = ok registry
  register i registry (none ∷ senders) = err (nil_sender i)
  register i registry (some (ch, s) ∷ senders) =
      let rest = register (suc i) ((ch, s) ∷ registry) senders in
      if not (valid_channel ch)
      then err (unknown_claimed i ch)
      else if is_present (find_sender ch registry)
      then err (two_senders ch)
      else rest

  -- NewService: the registry of the service.
  unfoldable pub new_service :
      Required → List (Option (Channel × S)) → Result (List (Channel × S)) SetupError
  unfolding register
  new_service given senders =
      if not given.has_notifications
      then err no_notifications
      else if not given.has_preferences
      then err no_preferences
      else if not given.has_renderer
      then err no_renderer
      else if not given.has_clock
      then err no_clock
      else register 0 [] senders
