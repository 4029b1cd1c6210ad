-- ===== src/Notification/Transport/Following.antt =====
-- A client of the list handler of modules/notification/transport/handler.go that follows next_cursor
-- to the end of the mailbox.
use mathlib.Core.Path.{subst}
use mathlib.Core.List.{append_assoc, map-append}
use kopiochi.Prelude.{
  length-map, All-append_right, ℕ, zero, suc, ◌<◌, pos, ◌≡◌, refl, ap, sym, ◌∙◌, inl, inr, true,
  false, Option, none, some, List, [], ◌∷◌, ◌++◌, map, length, take, All, Text, is_empty, eq_ℤ,
  arith, if◌then◌else◌, length-append,
}
use kopiochi.Notification.Domain.Types.{Uuid, Notification, ok}
use kopiochi.Notification.Domain.Backoff.{Floats}
use kopiochi.Notification.Repository.Rows.{NotificationRow, from_notification_row}
use kopiochi.Notification.Repository.Outbox.{Table}
use kopiochi.Notification.Repository.Updates.{IdsUnique}
use kopiochi.Notification.Repository.Mailbox.{ListFilter, list_for_recipient}
use kopiochi.Notification.Repository.Pages.{
  mailbox, cursor_of, page_size, page_size_bounds, list_for_recipient_pages,
}
use kopiochi.Notification.Application.Ports.{Ports}
use kopiochi.Notification.Application.Service.{view_of, list_for_user}
use kopiochi.Platform.Problem.{Route, Response, json, no_content, failed}
use kopiochi.Notification.Transport.{
  NotificationResponse, ListNotificationsResponse, Codec, Query, to_notification_responses,
  encode_cursor, parse_list_filter,
}
use kopiochi.Notification.Transport.Handler.{caller, last_of, page_of, list}
use kopiochi.Notification.Transport.Cursors.{
  take_cut, last_of-append, above_zero, first_page, IsSeekable, token_ne, parse_at,
}

-- What the ports of a mailbox over a table answer to the list query.
pub record ListsTable {W : Type 0} {fl : Floats} (ports : Ports W fl) (table : W → Table)
    : Type 0 where
  pub lists :
      (w : W) (user : Uuid) (f : ListFilter) (ns : List Notification)
      → list_for_recipient none user f (table w) ≡ ok ns
      → (ports.list_for_recipient w user f).1 ≡ ok ns
  pub keeps :
      (w : W) (user : Uuid) (f : ListFilter) → table (ports.list_for_recipient w user f).0 ≡ table w

module _ {W : Type 0} {fl : Floats} (ports : Ports W fl) (codec : Codec) (r : Route) where
  abbrev pub follow :
      (W → Text → Option (List NotificationResponse))
      → W × Response ListNotificationsResponse
      → Option (List NotificationResponse)
  follow next (w, no_content) = none
  follow next (w, failed hs p) = none
  follow next (w, json status page) =
      if is_empty page.next_cursor
      then some page.items
      else elim (next w page.next_cursor) [ none ↦ none | some items ↦ some (page.items ++ items) ]

  -- A client that asks for page after page, with so many requests at most.
  pub crawl : ℕ → W → Text → Query → Option (List NotificationResponse)
  crawl zero w subject q = none
  crawl (suc fuel) w subject q =
      follow (λ v token. crawl fuel v subject (record q { cursor = token }))
        (list ports codec r w subject q)

  follow_on :
      (next : W → Text → Option (List NotificationResponse)) (w : W)
      (items more : List NotificationResponse) (token : Text)
      → is_empty token ≡ false
      → next w token ≡ some more
      → follow next (w, json 200 (record { items = items; next_cursor = token }))
        ≡ some (items ++ more)
  follow_on next w items more token ne found = rw ne (rw found refl)

  -- The rows as a client sees them.
  abbrev pub seen : Table → List NotificationResponse
  seen t = to_notification_responses codec (map (view_of ports) (map from_notification_row t))

  seen-append : (t u : Table) → seen (t ++ u) ≡ seen t ++ seen u
  seen-append [] u = refl
  seen-append (x ∷ t) u = ap (λ l. seen (x ∷ []) ++ l) (seen-append t u)

  module _ (table : W → Table) (over : ListsTable ports table) (subject : Text) (user : Uuid)
      (known : caller codec subject ≡ some user) where
    listed :
        (w : W) (q : Query) (f : ListFilter) (ns : List Notification)
        → parse_list_filter codec q ≡ ok f
        → list_for_recipient none user f (table w) ≡ ok ns
        → list ports codec r w subject q ≡ (
          (ports.list_for_recipient w user f).0,
          json 200 (page_of codec f.limit (map (view_of ports) ns)),
        )
    unfolding list list_for_user
    listed w q f ns parsed rows = rw known (rw parsed (rw (over.lists w user f ns rows) refl))

    -- The page that the handler gives at a place of the mailbox: the last one, or a full one with the
    -- token of its last row.
    last_page :
        (g : ListFilter) (n : ℕ) (seg : Table)
        → g.limit ≡ pos (suc n)
        → length seg < suc n
        → page_of codec g.limit (map (view_of ports) (map from_notification_row seg))
          ≡ record { items = seen seg; next_cursor = [] }
    last_page g n seg limit short =
        let size =
          length-map (view_of ports) (map from_notification_row seg)
          ∙ length-map from_notification_row seg in
        let apart : eq_ℤ (pos (length (map (view_of ports) (map from_notification_row seg))))
              g.limit
            ≡ false =
          rw (size, limit) (ground arith) in
        rw apart refl

    full_page :
        (g : ListFilter) (n : ℕ) (init : Table) (c : NotificationRow)
        → g.limit ≡ pos (suc n)
        → length (init ++ c ∷ []) ≡ suc n
        → page_of codec g.limit (map (view_of ports) (map from_notification_row (init ++ c ∷ [])))
          ≡ record {
            items = seen (init ++ c ∷ []);
            next_cursor = encode_cursor codec (cursor_of c);
          }
    unfolding from_notification_row
    full_page g n init c limit full =
        let page = map (view_of ports) (map from_notification_row (init ++ c ∷ [])) in
        let size : length page ≡ suc n =
          length-map (view_of ports) (map from_notification_row (init ++ c ∷ []))
          ∙ (length-map from_notification_row (init ++ c ∷ []) ∙ full) in
        let whole : eq_ℤ (pos (length page)) g.limit ≡ true = rw (size, limit) (ground arith) in
        let split : page
            ≡ map (view_of ports) (map from_notification_row init)
              ++ view_of ports (from_notification_row c) ∷ [] =
          ap (map (view_of ports)) (map-append from_notification_row init (c ∷ []))
          ∙ map-append (view_of ports) (map from_notification_row init)
              (from_notification_row c ∷ []) in
        let last : last_of page ≡ some (view_of ports (from_notification_row c)) =
          ap last_of split
          ∙ last_of-append (map (view_of ports) (map from_notification_row init))
              (view_of ports (from_notification_row c)) in
        rw whole (rw last refl)

    module _ (q : Query) (f : ListFilter) (t : Table)
        (parsed : parse_list_filter codec (record q { cursor = [] }) ≡ ok f) (unique : IdsUnique t)
        (n : ℕ) (size : page_size f ≡ suc n) where
      -- From any place of the mailbox: the client gets what is behind it.
      crawl_from :
          (fuel : ℕ) (w : W) (token : Text) (g : ListFilter) (front seg : Table)
          → table w ≡ t
          → mailbox user f t ≡ front ++ seg
          → parse_list_filter codec (record q { cursor = token }) ≡ ok g
          → g.limit ≡ pos (suc n)
          → list_for_recipient none user g t ≡ ok (map from_notification_row (take (suc n) seg))
          → length seg < fuel
          → All (IsSeekable codec) seg
          → crawl fuel w subject (record q { cursor = token }) ≡ some (seen seg)
      unfolding crawl
      crawl_from zero w token g front seg at whole asked limit rows enough fit =
          absurd (omega arith)
      crawl_from (suc fuel) w token g front seg at whole asked limit rows enough fit =
          let next = λ (v : W) (tok : Text). crawl fuel v subject (record q { cursor = tok }) in
          let reply =
            listed w (record q { cursor = token }) g (map from_notification_row (take (suc n) seg))
              asked (ap (λ u. list_for_recipient none user g u) at ∙ rows) in
          ap (follow next) reply ∙ elim (take_cut n seg) [
            | inl (short, all) ↦
                ap (λ page. follow next ((ports.list_for_recipient w user g).0, json 200 page))
                  (ap
                      (λ rows.
                        page_of codec g.limit
                          (map (view_of ports) (map from_notification_row rows)))
                      all
                    ∙ last_page g n seg limit short)
            | inr (init, c, rest, e, cut, full) ↦
                let (filters, at_row) = parse_at codec q f parsed in
                let fit_all = subst (All (IsSeekable codec)) e fit in
                let fit_c = All-append_right (IsSeekable codec) init (c ∷ rest) fit_all in
                let at_c =
                  whole ∙ (ap (λ s. front ++ s) e ∙ sym (append_assoc front init (c ∷ rest))) in
                let (first, second, some_rows, few) =
                  list_for_recipient_pages user f c (front ++ init) rest t unique at_c in
                let shorter : length rest < fuel =
                  omega (arith, ap length e, length-append init (c ∷ rest)) in
                let behind =
                  crawl_from fuel (ports.list_for_recipient w user g).0
                    (encode_cursor codec (cursor_of c)) (record f { before = some (cursor_of c) })
                    ((front ++ init) ++ c ∷ []) rest (over.keeps w user g ∙ at)
                    (at_c ∙ sym (append_assoc (front ++ init) (c ∷ []) rest)) (at_row c fit_c.0)
                    (filters.2 ∙ ap pos size)
                    (second ∙ ap (λ k. ok (map from_notification_row (take k rest))) size) shorter
                    fit_c.1 in
                ap (λ page. follow next ((ports.list_for_recipient w user g).0, json 200 page))
                  (ap
                      (λ rows.
                        page_of codec g.limit
                          (map (view_of ports) (map from_notification_row rows)))
                      cut
                    ∙ full_page g n init c limit full)
                ∙ (follow_on next (ports.list_for_recipient w user g).0 (seen (init ++ c ∷ []))
                      (seen rest) (encode_cursor codec (cursor_of c)) (token_ne codec (cursor_of c))
                      behind
                    ∙ ap some (
                        sym (seen-append (init ++ c ∷ []) rest)
                        ∙ ap seen (append_assoc init (c ∷ []) rest ∙ sym e)))
          ]

  -- A client that starts without a cursor and follows next_cursor gets every row that its filter lists,
  -- once and newest first, in at most one request more than there are rows, if the table has unique ids
  -- and cursors can carry the times and ids of the rows.
  pub crawl_lem :
      (table : W → Table) (subject : Text) (user : Uuid) (q : Query) (f : ListFilter) (fuel : ℕ)
      (w : W)
      → ListsTable ports table
      → caller codec subject ≡ some user
      → parse_list_filter codec (record q { cursor = [] }) ≡ ok f
      → IdsUnique (table w)
      → All (IsSeekable codec) (mailbox user f (table w))
      → length (mailbox user f (table w)) < fuel
      → crawl fuel w subject (record q { cursor = [] }) ≡ some (seen (mailbox user f (table w)))
  crawl_lem table subject user q f fuel w over known parsed unique fit enough =
      let (filters, at_row) = parse_at codec q f parsed in
      let (n, size) = above_zero (page_size f) (page_size_bounds f).0 in
      let first =
        ap (λ g. list_for_recipient none user g (table w)) filters.1
        ∙ (first_page user f (table w)
            ∙ ap (λ k. ok (map from_notification_row (take k (mailbox user f (table w))))) size) in
      crawl_from table over subject user known q f (table w) parsed unique n size fuel w [] f []
        (mailbox user f (table w)) refl refl parsed (filters.2 ∙ ap pos size) first enough fit
