-- ===== src/Notification/Transport.antt =====
-- modules/notification/transport/dto.go: the wire types, the cursor and the query of the mailbox.
pub mod Handler
pub mod Cursors
pub mod Following
pub mod Hiding
pub mod Protecting
use kopiochi.Prelude.{
  ℕ, zero, suc, ◌+◌, ◌*◌, ◌-◌, ◌≤◌, ℤ, pos, negsuc, ◌≡◌, ◌≢◌, Bool, true, false, not, ◌&&◌, ◌||◌,
  Option, none, some, List, [], ◌∷◌, map, Text, codes, text_eq, is_empty, leb, ltb, leb_ℤ, eq_ℤ,
  ◌==◌, max_int64, if◌then◌else◌,
}
use kopiochi.Notification.Domain.Types.{Uuid, Time, Channel, Category, Payload, Result, ok, err}
use kopiochi.Notification.Repository.Mailbox.{Cursor, ListFilter, normalize}
use kopiochi.Notification.Application.Ports.{NotificationView, PreferenceView}

-- NotificationResponse; the id is its text.
pub record NotificationResponse : Type 0 where
  pub id : Text
  pub category : Category
  pub template_key : Text
  pub payload : Option Payload
  pub created_at : Time
  pub read_at : Option Time

-- ListNotificationsResponse
pub record ListNotificationsResponse : Type 0 where
  pub items : List NotificationResponse
  pub next_cursor : Text

-- MarkAllReadResponse
pub record MarkAllReadResponse : Type 0 where
  pub marked_read : ℕ

-- PreferencesResponse, with PreferenceResponse as PreferenceView, which has the same fields.
pub record PreferencesResponse : Type 0 where
  pub preferences : List PreferenceView

-- PreferenceUpdateRequest
pub record PreferenceUpdateRequest : Type 0 where
  pub channel : Channel
  pub category : Category
  pub enabled : Option Bool

-- badRequest, a constructor for each message.
pub data BadRequest : Type 0 where
  bad_unread bad_limit not_a_cursor bad_body : BadRequest
  missing_enabled : ℕ → BadRequest

-- time.Time{}, of which IsZero is true: the first instant of the year 1.
abbrev pub zero_time : Time
zero_time = negsuc 62135596799999999999

-- encoding/json for cursorPayload, which has times of the years 0 to 9999 only, base64.RawURLEncoding,
-- and google/uuid. `decode_body` is the JSON decoder for UpdatePreferencesRequest.
pub record Codec : Type 0 where
  pub marshal : Time → Uuid → Text
  pub unmarshal : Text → Option (Time × Uuid)
  pub base64_encode : Text → Text
  pub base64_decode : Text → Option Text
  pub is_json_time : Time → Bool
  pub parse_uuid : Text → Option Uuid
  pub uuid_text : Uuid → Text
  pub decode_body : Text → Option (List PreferenceUpdateRequest)
  pub unmarshal-marshal :
      (t : Time) (u : Uuid) → is_json_time t ≡ true → unmarshal (marshal t u) ≡ some (t, u)
  pub decode-encode : (s : Text) → base64_decode (base64_encode s) ≡ some s
  pub encode_ne : (s : Text) → s ≢ [] → base64_encode s ≢ []
  pub marshal_ne : (t : Time) (u : Uuid) → marshal t u ≢ []

-- strconv.ParseBool
abbrev pub parse_bool : Text → Option Bool
parse_bool s =
    if text_eq s (codes "1")
      || (text_eq s (codes "t")
          || (text_eq s (codes "T")
              || (text_eq s (codes "true")
                  || (text_eq s (codes "TRUE") || text_eq s (codes "True")))))
    then some true
    else if text_eq s (codes "0")
        || (text_eq s (codes "f")
            || (text_eq s (codes "F")
                || (text_eq s (codes "false")
                    || (text_eq s (codes "FALSE") || text_eq s (codes "False")))))
    then some false
    else none

-- The digits of strconv.Atoi, behind a number that was read already.
unfoldable pub digits : ℕ → Text → Option ℕ
digits n [] = some n
digits n (b ∷ s) =
    let rest = digits (n * 10 + (b - 48)) s in if leb 48 b && leb b 57 then rest else none

abbrev pub unsigned : Text → Option ℕ
unsigned [] = none
unsigned (b ∷ s) = digits 0 (b ∷ s)

-- An int64 is at most max_int64, and at least its negative less one.
abbrev pub in_range : ℕ → Option ℕ → Option ℕ
in_range top none = none
in_range top (some n) = if leb n top then some n else none

abbrev pub negative : ℕ → ℤ
negative zero = pos 0
negative (suc n) = negsuc n

-- strconv.Atoi
unfoldable pub atoi : Text → Option ℤ
unfolding digits
atoi [] = none
atoi (b ∷ s) =
    if b == 45
    then elim (in_range (suc max_int64) (unsigned s)) [ none ↦ none | some n ↦ some (negative n) ]
    else elim (in_range max_int64 (unsigned (if b == 43 then s else b ∷ s))) [
      | none ↦ none
      | some n ↦ some (pos n)
    ]

-- What Query().Get gives for the three parameters: empty where one is missing.
pub record Query : Type 0 where
  pub unread : Text
  pub limit : Text
  pub cursor : Text

abbrev pub if_set : Option (Time × Uuid) → Result Cursor BadRequest
if_set none = err not_a_cursor
if_set (some (t, u)) =
    if eq_ℤ t zero_time || u == 0 then err not_a_cursor else ok (record { created_at = t; id = u })

abbrev pub unread_of : Text → Result Bool BadRequest
unread_of raw =
    if is_empty raw
    then ok false
    else elim (parse_bool raw) [ none ↦ err bad_unread | some v ↦ ok v ]

abbrev pub positive : Option ℤ → Result ℤ BadRequest
positive none = err bad_limit
positive (some v) = if leb_ℤ v (pos 0) then err bad_limit else ok v

abbrev pub limit_of : Text → Result ℤ BadRequest
limit_of raw = if is_empty raw then ok (pos 0) else positive (atoi raw)

abbrev pub some_cursor : Result Cursor BadRequest → Result (Option Cursor) BadRequest
some_cursor (err e) = err e
some_cursor (ok c) = ok (some c)

abbrev pub filter_of :
    Result Bool BadRequest
    → Result ℤ BadRequest
    → Result (Option Cursor) BadRequest
    → Result ListFilter BadRequest
filter_of (err e) _ _ = err e
filter_of (ok unread) (err e) _ = err e
filter_of (ok unread) (ok limit) (err e) = err e
filter_of (ok unread) (ok limit) (ok before) =
    ok (normalize (record { unread_only = unread; limit = limit; before = before }))

module _ (codec : Codec) where
  -- toNotificationResponses
  abbrev pub to_notification_response : NotificationView → NotificationResponse
  to_notification_response v = record {
    id = codec.uuid_text v.id;
    category = v.category;
    template_key = v.template_key;
    payload = v.payload;
    created_at = v.created_at;
    read_at = v.read_at;
  }

  abbrev pub to_notification_responses : List NotificationView → List NotificationResponse
  to_notification_responses views = map to_notification_response views

  -- encodeCursor
  unfoldable pub encode_cursor : Cursor → Text
  encode_cursor c = codec.base64_encode (codec.marshal c.created_at c.id)

  abbrev pub if_base64 : Option Text → Result Cursor BadRequest
  if_base64 none = err not_a_cursor
  if_base64 (some raw) = if_set (codec.unmarshal raw)

  -- decodeCursor
  unfoldable pub decode_cursor : Text → Result Cursor BadRequest
  decode_cursor s = if_base64 (codec.base64_decode s)

  abbrev pub before_of : Text → Result (Option Cursor) BadRequest
  before_of raw = if is_empty raw then ok none else some_cursor (decode_cursor raw)

  -- parseListFilter
  unfoldable pub parse_list_filter : Query → Result ListFilter BadRequest
  unfolding atoi decode_cursor
  parse_list_filter q = filter_of (unread_of q.unread) (limit_of q.limit) (before_of q.cursor)

-- toPreferenceUpdates, from a place of the list on.
abbrev pub cons_update :
    PreferenceView
    → Result (List PreferenceView) BadRequest
    → Result (List PreferenceView) BadRequest
cons_update u (err e) = err e
cons_update u (ok us) = ok (u ∷ us)

unfoldable pub updates_from :
    ℕ → List PreferenceUpdateRequest → Result (List PreferenceView) BadRequest
updates_from i [] = ok []
updates_from i (p ∷ ps) =
    let rest = updates_from (suc i) ps in
    elim p.enabled [
      | none ↦ err (missing_enabled i)
      | some b ↦
          cons_update (record { channel = p.channel; category = p.category; enabled = b }) rest
    ]

abbrev pub to_preference_updates :
    List PreferenceUpdateRequest → Result (List PreferenceView) BadRequest
to_preference_updates ps = updates_from 0 ps
