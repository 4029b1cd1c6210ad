-- ===== src/Notification/Transport/Handler.antt =====
-- modules/notification/transport/handler.go. Each handler runs behind the auth middleware, so it has
-- the subject of a Principal; the bytes of a body are not carried, but what is encoded.
use kopiochi.Prelude.{
  ℤ, pos, Bool, false, Option, none, some, List, [], ◌∷◌, length, Text, codes, eq_ℤ, if◌then◌else◌,
}
use kopiochi.Notification.Domain.Types.{
  Uuid, invalid_preference, preference_protected, Result, ok, err,
}
use kopiochi.Notification.Domain.Backoff.{Floats}
use kopiochi.Notification.Repository.Mailbox.{ListFilter}
use kopiochi.Notification.Application.Ports.{NotificationView, PreferenceView, Ports}
use kopiochi.Notification.Application.Service
use kopiochi.Notification.Application.Service.{
  ServiceError, invalid, not_marked, Answer, list_for_user,
}
use kopiochi.Platform.Problem.{Route, Response, json, no_content, write_problem, unauthorized}
use kopiochi.Notification.Transport.{
  ListNotificationsResponse, MarkAllReadResponse, PreferencesResponse, PreferenceUpdateRequest,
  BadRequest, bad_unread, bad_limit, not_a_cursor, bad_body, missing_enabled, Codec, Query,
  to_notification_responses, encode_cursor, parse_list_filter, to_preference_updates, updates_from,
}

-- The message that writeBadRequest shows: an error that is no badRequest, as that of a missing
-- "enabled", is summarised.
abbrev pub message : BadRequest → Text
message bad_unread = codes "the unread parameter must be true or false"
message bad_limit = codes "the limit parameter must be a positive integer (at most 100)"
message not_a_cursor = codes "the cursor parameter is not a cursor this service issued"
message bad_body = codes "the request body is not valid JSON"
message (missing_enabled i) = codes "the request could not be understood"

-- errors.Is(err, domain.ErrNotFound)
abbrev pub is_missing : ServiceError → Bool
is_missing (not_marked f) = f.missing
is_missing _ = false

module _ (r : Route) {A : Type 0} where
  -- writeNotFound
  abbrev pub write_not_found : Response A
  write_not_found =
      write_problem r 404 (codes "not_found") (codes "Not Found") (codes "No such notification.")

  -- writeBadRequest
  abbrev pub write_bad_request : BadRequest → Response A
  write_bad_request e =
      write_problem r 400 (codes "invalid_request") (codes "Bad Request") (message e)

  -- writeInternal
  abbrev pub write_internal : Text → Response A
  write_internal detail =
      write_problem r 500 (codes "internal_error") (codes "Internal Server Error") detail

  -- writePreferenceError
  abbrev pub write_preference_error : ServiceError → Response A
  write_preference_error (invalid preference_protected) =
      write_problem r 422 (codes "preference_protected") (codes "Preference Is Protected")
        (codes "Security notifications by email cannot be switched off.")
  write_preference_error (invalid invalid_preference) =
      write_problem r 422 (codes "invalid_preference") (codes "Invalid Preference")
        (codes "A preference names an unknown channel or category, or the same pair twice.")
  write_preference_error _ = write_internal (codes "Could not save the delivery preferences.")

-- caller
abbrev pub caller : Codec → Text → Option Uuid
caller codec subject = codec.parse_uuid subject

-- `views[len(views)-1]`, where there is one.
abbrev pub last_of : List NotificationView → Option NotificationView
last_of [] = none
last_of (v ∷ []) = some v
last_of (v ∷ u ∷ vs) = last_of (u ∷ vs)

abbrev pub cursor_after : Codec → Option NotificationView → Text
cursor_after codec none = []
cursor_after codec (some v) = encode_cursor codec (record { created_at = v.created_at; id = v.id })

-- The body of a page, for the filter's limit.
abbrev pub page_of : Codec → ℤ → List NotificationView → ListNotificationsResponse
page_of codec limit views = record {
  items = to_notification_responses codec views;
  next_cursor = if eq_ℤ (pos (length views)) limit then cursor_after codec (last_of views) else [];
}

module _ {W : Type 0} {fl : Floats} (ports : Ports W fl) (codec : Codec) (r : Route) where
  -- `if err != nil { writeInternal(...) }`, and the body otherwise.
  abbrev pub replied : {A B : Type 0} → Text → (A → B) → Answer ports A → W × Response B
  replied detail body (w, err e) = (w, write_internal r detail)
  replied detail body (w, ok a) = (w, json 200 (body a))

  abbrev pub list_filtered :
      W → Uuid → Result ListFilter BadRequest → W × Response ListNotificationsResponse
  list_filtered w user (err e) = (w, write_bad_request r e)
  list_filtered w user (ok f) =
      replied (codes "Could not read the mailbox.") (page_of codec f.limit)
        (list_for_user ports w user f)

  abbrev pub list_as : W → Option Uuid → Query → W × Response ListNotificationsResponse
  list_as w none q = (w, unauthorized r)
  list_as w (some user) q = list_filtered w user (parse_list_filter codec q)

  -- List
  unfoldable pub list : W → Text → Query → W × Response ListNotificationsResponse
  list w subject q = list_as w (caller codec subject) q

  abbrev pub after_mark : Answer ports (Unit {0}) → W × Response (Unit {0})
  after_mark (w, ok done) = (w, no_content)
  after_mark (w, err e) =
      if is_missing e
      then (w, write_not_found r)
      else (w, write_internal r (codes "Could not mark the notification read."))

  abbrev pub mark_parsed : W → Uuid → Option Uuid → W × Response (Unit {0})
  mark_parsed w user none = (w, write_not_found r)
  mark_parsed w user (some id) = after_mark (Service.mark_read ports w user id)

  abbrev pub mark_as : W → Option Uuid → Text → W × Response (Unit {0})
  mark_as w none id = (w, unauthorized r)
  mark_as w (some user) id = mark_parsed w user (codec.parse_uuid id)

  -- MarkRead, with the path's id.
  unfoldable pub mark_read : W → Text → Text → W × Response (Unit {0})
  mark_read w subject id = mark_as w (caller codec subject) id

  abbrev pub mark_all_as : W → Option Uuid → W × Response MarkAllReadResponse
  mark_all_as w none = (w, unauthorized r)
  mark_all_as w (some user) =
      replied (codes "Could not mark the notifications read.") (λ n. record { marked_read = n })
        (Service.mark_all_read ports w user)

  -- MarkAllRead
  unfoldable pub mark_all_read : W → Text → W × Response MarkAllReadResponse
  mark_all_read w subject = mark_all_as w (caller codec subject)

  abbrev pub preferences_as : W → Option Uuid → W × Response PreferencesResponse
  preferences_as w none = (w, unauthorized r)
  preferences_as w (some user) =
      replied (codes "Could not read the delivery preferences.") (λ vs. record { preferences = vs })
        (Service.get_preferences ports w user)

  -- GetPreferences
  unfoldable pub get_preferences : W → Text → W × Response PreferencesResponse
  get_preferences w subject = preferences_as w (caller codec subject)

  abbrev pub updated : Answer ports (List PreferenceView) → W × Response PreferencesResponse
  updated (w, err e) = (w, write_preference_error r e)
  updated (w, ok vs) = (w, json 200 (record { preferences = vs }))

  abbrev pub update_all :
      W → Uuid → Result (List PreferenceView) BadRequest → W × Response PreferencesResponse
  update_all w user (err e) = (w, write_bad_request r e)
  update_all w user (ok us) = updated (Service.update_preferences ports w user us)

  abbrev pub update_decoded :
      W → Uuid → Option (List PreferenceUpdateRequest) → W × Response PreferencesResponse
  update_decoded w user none = (w, write_bad_request r bad_body)
  update_decoded w user (some ps) = update_all w user (to_preference_updates ps)

  abbrev pub update_as : W → Option Uuid → Text → W × Response PreferencesResponse
  update_as w none body = (w, unauthorized r)
  update_as w (some user) body = update_decoded w user (codec.decode_body body)

  -- UpdatePreferences
  unfoldable pub update_preferences : W → Text → Text → W × Response PreferencesResponse
  unfolding updates_from
  update_preferences w subject body = update_as w (caller codec subject) body
