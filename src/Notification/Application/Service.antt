-- ===== src/Notification/Application/Service.antt =====
-- modules/notification/application/service.go: Enqueue, the mailbox reads and the preferences.
use kopiochi.Prelude.{
  ℕ, map, Bool, true, false, ◌&&◌, Option, none, some, List, [], ◌∷◌, ◌++◌, if◌then◌else◌,
}
use kopiochi.Notification.Domain.Types.{
  Notification, Uuid, Time, Channel, Category, channels, categories, same_channel, same_category,
  DomainError, invalid_preference, Notification, NewNotificationParams, new_notification, Result,
  ok, err,
}
use kopiochi.Notification.Domain.Preference.{Preference, new_preference, allowed}
use kopiochi.Notification.Domain.Backoff.{Floats}
use kopiochi.Notification.Repository.Mailbox.{ListFilter}
use kopiochi.Notification.Application.Ports.{
  NotificationView, Fault, EnqueueRequest, PreferenceView, Ports, Sender,
}

-- What Enqueue, GetPreferences and UpdatePreferences report.
pub data ServiceError : Type 0 where
  invalid : DomainError → ServiceError
  not_routable : Channel → ServiceError
  preferences_unread : Fault → ServiceError
  not_enqueued : Fault → ServiceError
  preferences_unsaved : Fault → ServiceError
  not_listed not_marked none_marked : Fault → ServiceError

-- The parameters that Enqueue makes of a request.
abbrev pub params_of : Uuid → EnqueueRequest → NewNotificationParams
params_of id req = record {
  id = id;
  recipient_id = req.recipient_id;
  channel = req.channel;
  category = req.category;
  template_key = req.template_key;
  payload = req.payload;
  idempotency_key = req.idempotency_key;
}

-- The inner and the outer loop of GetPreferences.
abbrev pub row_of : List Preference → Channel → List Category → List PreferenceView
row_of prefs ch [] = []
row_of prefs ch (cat ∷ cats) =
    record { channel = ch; category = cat; enabled = allowed prefs ch cat } ∷ row_of prefs ch cats

abbrev pub matrix_of : List Preference → List Channel → List PreferenceView
matrix_of prefs [] = []
matrix_of prefs (ch ∷ chs) = row_of prefs ch categories ++ matrix_of prefs chs

-- `_, dup := seen[key]`, where `seen` holds the pairs of the updates before this one.
abbrev pub names_pair : Channel → Category → List PreferenceView → Bool
names_pair ch cat [] = false
names_pair ch cat (u ∷ us) =
    if same_channel u.channel ch && same_category u.category cat then true else names_pair ch cat us

abbrev pub cons_to :
    Preference → Result (List Preference) DomainError → Result (List Preference) DomainError
cons_to p (err e) = err e
cons_to p (ok ps) = ok (p ∷ ps)

abbrev pub then_rest :
    Result Preference DomainError
    → Result (List Preference) DomainError
    → Result (List Preference) DomainError
then_rest (err e) rest = err e
then_rest (ok p) rest = cons_to p rest

-- The loop of UpdatePreferences.
unfoldable pub validate :
    Uuid → Time → List PreferenceView → List PreferenceView → Result (List Preference) DomainError
validate user now seen [] = ok []
validate user now seen (u ∷ us) =
    let rest = validate user now (u ∷ seen) us in
    if names_pair u.channel u.category seen
    then err invalid_preference
    else then_rest (new_preference user u.channel u.category u.enabled now) rest

module _ {W : Type 0} {fl : Floats} (ports : Ports W fl) where
  abbrev pub Answer : Type 0 → Type 0
  Answer A = W × Result A ServiceError

  -- `errors.Is(err, domain.ErrDuplicateIdempotencyKey)` is success.
  abbrev pub queued : W × Result (Unit {0}) Fault → Answer (Unit {0})
  queued (w, ok done) = (w, ok tt)
  queued (w, err f) = (w, (if f.duplicate then ok tt else err (not_enqueued f)))

  abbrev pub unless_off : Notification → W × Result (List Preference) Fault → Answer (Unit {0})
  unless_off n (w, err f) = (w, err (preferences_unread f))
  unless_off n (w, ok prefs) =
      if allowed prefs n.channel n.category then queued (ports.enqueue w n) else (w, ok tt)

  abbrev pub if_routable : Option (Sender W) → W → Notification → Answer (Unit {0})
  if_routable none w n = (w, err (not_routable n.channel))
  if_routable (some s) w n = unless_off n (ports.list_preferences w n.recipient_id)

  abbrev pub if_valid : W → Result Notification DomainError → Answer (Unit {0})
  if_valid w (err e) = (w, err (invalid e))
  if_valid w (ok n) = if_routable (ports.senders n.channel) w n

  -- Enqueue
  unfoldable pub enqueue : W → EnqueueRequest → Answer (Unit {0})
  unfolding new_notification
  enqueue w req =
      let (w₁, id) = ports.new_uuid w in
      let (w₂, now) = ports.now w₁ in if_valid w₂ (new_notification (params_of id req) now)

  abbrev pub matrix_from : W × Result (List Preference) Fault → Answer (List PreferenceView)
  matrix_from (w, err f) = (w, err (preferences_unread f))
  matrix_from (w, ok prefs) = (w, ok (matrix_of prefs channels))

  -- GetPreferences
  unfoldable pub get_preferences : W → Uuid → Answer (List PreferenceView)
  get_preferences w user = matrix_from (ports.list_preferences w user)

  abbrev pub after_upsert : Uuid → W × Result (Unit {0}) Fault → Answer (List PreferenceView)
  after_upsert user (w, err f) = (w, err (preferences_unsaved f))
  after_upsert user (w, ok done) = get_preferences w user

  abbrev pub if_all_valid :
      Uuid → W → Result (List Preference) DomainError → Answer (List PreferenceView)
  if_all_valid user w (err e) = (w, err (invalid e))
  if_all_valid user w (ok prefs) = after_upsert user (ports.upsert w prefs)

  -- UpdatePreferences
  unfoldable pub update_preferences : W → Uuid → List PreferenceView → Answer (List PreferenceView)
  unfolding get_preferences validate
  update_preferences w user updates =
      let (w₁, now) = ports.now w in if_all_valid user w₁ (validate user now [] updates)

  -- The fields that a reader sees.
  abbrev pub view_of : Notification → NotificationView
  view_of n = record {
    id = n.id;
    category = n.category;
    template_key = n.template_key;
    payload = n.payload;
    created_at = n.created_at;
    read_at = n.read_at;
  }

  -- `return fmt.Errorf(...)` around a port's error.
  abbrev wrapped : {A B : Type 0} → (Fault → ServiceError) → (A → B) → W × Result A Fault → Answer B
  wrapped wrap f (w, err e) = (w, err (wrap e))
  wrapped wrap f (w, ok a) = (w, ok (f a))

  -- ListForUser
  unfoldable pub list_for_user : W → Uuid → ListFilter → Answer (List NotificationView)
  list_for_user w user f = wrapped not_listed (map view_of) (ports.list_for_recipient w user f)

  -- MarkRead
  unfoldable pub mark_read : W → Uuid → Uuid → Answer (Unit {0})
  mark_read w user id =
      let (w', now) = ports.now w in wrapped not_marked (λ u. u) (ports.mark_read w' user id now)

  -- MarkAllRead
  unfoldable pub mark_all_read : W → Uuid → Answer ℕ
  mark_all_read w user =
      let (w', now) = ports.now w in wrapped none_marked (λ n. n) (ports.mark_all_read w' user now)
