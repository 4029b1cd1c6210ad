-- ===== src/Notification/Examples/TransportCases.antt =====
-- The theorems on modules/notification/transport at a mailbox of two rows, with a codec of numbers.
use mathlib.Core.List.{Memᴰ}
use kopiochi.Prelude.{
  zero, suc, pos, negsuc, ◌≡◌, refl, ◌⊎◌, true, false, Option, none, some, [], ◌∷◌, All, Text,
  codes, arith,
}
use kopiochi.Notification.Domain.Types.{Uuid, Time, inapp}
use kopiochi.Notification.Repository.Rows.{NotificationRow, to_notification_row}
use kopiochi.Notification.Repository.Outbox.{update_where, Table}
use kopiochi.Notification.Repository.Updates.{IdsUnique}
use kopiochi.Notification.Repository.Mailbox.{ListFilter, normalize, put_in_order, newest_first}
use kopiochi.Notification.Repository.Pages.{mailbox}
use kopiochi.Notification.Repository.Reads.{is_mine}
use kopiochi.Platform.Problem.{Route, no_content}
use kopiochi.Notification.Transport.{Codec, Query, digits, atoi, parse_list_filter}
use kopiochi.Notification.Transport.Handler.{mark_read, update_preferences}
use kopiochi.Notification.Transport.Following.{ListsTable, crawl, seen, crawl_lem}
use kopiochi.Notification.Transport.Hiding.{MarksTable, hidden, read_by, mark_read_uniform}
use kopiochi.Notification.Transport.Protecting.{
  asked_silence, incomplete, unknown_pair, protected_pair, update_preferences_protected,
}
use kopiochi.Notification.Examples.World.{world, ports, first_row, second_row}

abbrev toy_marshal : Time → Uuid → Text
toy_marshal (pos n) u = 0 ∷ n ∷ u ∷ []
toy_marshal (negsuc n) u = 1 ∷ n ∷ u ∷ []

abbrev toy_unmarshal : Text → Option (Time × Uuid)
toy_unmarshal (zero ∷ n ∷ u ∷ []) = some (pos n, u)
toy_unmarshal (suc zero ∷ n ∷ u ∷ []) = some (negsuc n, u)
toy_unmarshal _ = none

toy_back : (t : Time) (u : Uuid) → toy_unmarshal (toy_marshal t u) ≡ some (t, u)
toy_back (pos n) u = refl
toy_back (negsuc n) u = refl

toy_marshal_ne : (t : Time) (u : Uuid) → toy_marshal t u ≡ [] → ⊥
toy_marshal_ne (pos n) u h = cc
toy_marshal_ne (negsuc n) u h = cc

abbrev first_byte : Text → Option Uuid
first_byte [] = none
first_byte (b ∷ s) = some b

-- Every body asks for no security mail, and every id is the byte that it begins with.
abbrev toy_codec : Codec
toy_codec = record {
  marshal = toy_marshal;
  unmarshal = toy_unmarshal;
  base64_encode = λ s. s;
  base64_decode = some;
  is_json_time = λ t. true;
  parse_uuid = first_byte;
  uuid_text = λ u. u ∷ [];
  decode_body = λ s. some (asked_silence ∷ []);
  unmarshal-marshal = λ t u h. toy_back t u;
  decode-encode = λ s. refl;
  encode_ne = λ s n. n;
  marshal_ne = toy_marshal_ne;
}

abbrev route : Route
route = record { path = codes "/"; method = codes "GET"; request_id = codes "r" }

-- Rows 7 and 8, both in the mailbox of 42.
abbrev two_cards : Table
two_cards =
    record (to_notification_row first_row) { channel = inapp }
    ∷ record (to_notification_row second_row) { channel = inapp; recipient_id = 42 }
    ∷ []

two_cards-IdsUnique : IdsUnique two_cards
unfolding to_notification_row
two_cards-IdsUnique = (refl, (refl, tt))

lists_cards : ListsTable ports (λ w. w.table)
lists_cards = record { lists = λ w user f ns h. rw h refl; keeps = λ w user f. refl }

-- Pages of one row.
abbrev by_one : Query
by_one = record { unread = []; limit = codes "1"; cursor = [] }

abbrev of_one : ListFilter
of_one = record { unread_only = false; limit = pos 1; before = none }

crawl_lem_example :
    crawl ports toy_codec route 5 (world two_cards) (42 ∷ []) by_one
    ≡ some (seen ports toy_codec route (mailbox 42 of_one two_cards))
crawl_lem_example =
    crawl_lem ports toy_codec route (λ w. w.table) (42 ∷ []) 42 by_one of_one 5 (world two_cards)
      lists_cards refl (unfold parse_list_filter atoi digits normalize in refl) two_cards-IdsUnique
      (unfold newest_first put_in_order to_notification_row in
        ((refl, refl, refl), ((refl, refl, refl), tt)))
      (unfold newest_first put_in_order to_notification_row in omega arith)

marks_cards : MarksTable ports (λ w. w.table)
marks_cards = record {
  now_keeps = λ w. refl;
  writes = λ w user id now. refl;
  succeeds = λ w user id now h. rw h refl;
  misses = λ w user id now h. (
    record { missing = true; non_retryable = false; duplicate = true; text = [] },
    rw h refl,
    refl,
  );
}

-- Row 8 asked for by the recipient 43.
mark_read_uniform_example :
    let x = mark_read ports toy_codec route (world two_cards) (43 ∷ []) (8 ∷ []) in
    (((first_byte (8 ∷ []) ≡ none)
        ⊎ ((id : Uuid) × (first_byte (8 ∷ []) ≡ some id)
            × All (λ row. is_mine 43 id row ≡ false) two_cards))
      × (x.1 ≡ hidden ports toy_codec route)
      × (x.0.table ≡ two_cards))
    ⊎ ((id : Uuid) × (row : NotificationRow) × (first_byte (8 ∷ []) ≡ some id)
        × Memᴰ row two_cards
        × (is_mine 43 id row ≡ true)
        × (x.1 ≡ no_content)
        × (x.0.table ≡ update_where (is_mine 43 id) (read_by (pos 5000)) two_cards))
mark_read_uniform_example =
    mark_read_uniform ports toy_codec route (λ w. w.table) (world two_cards) (43 ∷ []) (8 ∷ []) 43
      marks_cards refl

update_preferences_protected_example :
    let x = update_preferences ports toy_codec route (world []) (42 ∷ []) [] in
    ((x.0 ≡ world []) × (x.1 ≡ incomplete ports toy_codec route))
    ⊎ ((x.0 ≡ (ports.now (world [])).0)
        × ((x.1 ≡ unknown_pair ports toy_codec route)
            ⊎ (x.1 ≡ protected_pair ports toy_codec route)))
update_preferences_protected_example =
    update_preferences_protected ports toy_codec route (world []) (42 ∷ []) [] 42 [] [] refl refl
