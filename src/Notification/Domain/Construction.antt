-- ===== src/Notification/Domain/Construction.antt =====
-- What NewNotification of modules/notification/domain/notification.go accepts.
use kopiochi.Prelude.{
  is_empty-nil, ◌≡◌, ◌≢◌, ◌⊎◌, inl, inr, Bool, true, false, not, ◌&&◌, [], is_empty, arith,
  Bool-cases, ◌==◌,
}
use kopiochi.Notification.Domain.Types.{
  Time, valid_channel, valid_category, invalid_notification, NewNotificationParams, pending_row,
  new_notification, ok, err,
}

pub record IsWellFormed (p : NewNotificationParams) : Type 0 where
  pub has_id : p.id ≢ 0
  pub has_recipient : p.recipient_id ≢ 0
  pub known_channel : valid_channel p.channel ≡ true
  pub known_category : valid_category p.category ≡ true
  pub has_template : p.template_key ≢ []

pub new_notification_ok :
    (p : NewNotificationParams) (now : Time)
    → IsWellFormed p
    → new_notification p now ≡ ok (pending_row p now)
unfolding new_notification
new_notification_ok p now v = ground (arith, is_empty-nil p.template_key)

-- The guards of the constructor, all passed.
abbrev is_accepted : NewNotificationParams → Bool
is_accepted p =
    not (p.id == 0)
    && (not (p.recipient_id == 0)
        && (valid_channel p.channel
            && (valid_category p.category && not (is_empty p.template_key))))

accepted-IsWellFormed : (p : NewNotificationParams) → is_accepted p ≡ true → IsWellFormed p
accepted-IsWellFormed p h = record {
  has_id = λ e. ground arith;
  has_recipient = λ e. ground arith;
  known_channel = ground arith;
  known_category = ground arith;
  has_template = λ e. ground arith;
}

not_accepted : (p : NewNotificationParams) → is_accepted p ≡ false → IsWellFormed p → ⊥
not_accepted p h v = ground (arith, is_empty-nil p.template_key)

-- The constructor accepts exactly the well-formed parameters, and then the row is pending, has
-- failed never, is due at once and carries what it was given; all else is ErrInvalidNotification.
pub new_notification_lem :
    (p : NewNotificationParams) (now : Time)
    → (IsWellFormed p × (new_notification p now ≡ ok (pending_row p now)))
      ⊎ (¬ IsWellFormed p × (new_notification p now ≡ err invalid_notification))
unfolding new_notification
new_notification_lem p now = elim (Bool-cases (is_accepted p)) [
  | inl good ↦ let v = accepted-IsWellFormed p good in inl (v, new_notification_ok p now v)
  | inr bad ↦ inr ((λ v. absurd (not_accepted p bad v)), ground arith)
]
