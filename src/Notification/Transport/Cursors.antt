-- ===== src/Notification/Transport/Cursors.antt =====
-- The cursor of modules/notification/transport/dto.go, from encodeCursor to the filter that parseListFilter
-- makes of it, and the cut of a page.
use mathlib.Core.Path.{subst}
use kopiochi.Prelude.{
  ℕ, zero, suc, ◌≤◌, ◌<◌, ℤ, pos, ◌≡◌, refl, ap, sym, ◌⊎◌, inl, inr, Bool, true, false, none, some,
  List, [], ◌∷◌, ◌++◌, map, length, take, is_empty, is_empty-ne, eq_ℤ, ◌==◌, arith,
}
use kopiochi.Notification.Domain.Types.{Uuid, Result, ok, err}
use kopiochi.Notification.Repository.Rows.{NotificationRow, from_notification_row}
use kopiochi.Notification.Repository.Outbox.{Table}
use kopiochi.Notification.Repository.Mailbox.{Cursor, ListFilter, normalize, list_for_recipient}
use kopiochi.Notification.Repository.Pages.{mailbox, cursor_of, page_size}
use kopiochi.Notification.Application.Ports.{NotificationView}
use kopiochi.Notification.Transport.{
  BadRequest, zero_time, Codec, Query, encode_cursor, decode_cursor, unread_of, limit_of, filter_of,
  parse_list_filter,
}
use kopiochi.Notification.Transport.Handler.{last_of}

-- A cut of a list at a page's end: all of it, or a full page with its last element and a rest.
pub take_cut {ℓ} :
    {A : Type ℓ} (n : ℕ) (xs : List A)
    → ((length xs < suc n) × (take (suc n) xs ≡ xs))
      ⊎ ((init : List A) × (c : A) × (rest : List A) × (xs ≡ init ++ c ∷ rest)
          × (take (suc n) xs ≡ init ++ c ∷ [])
          × (length (init ++ c ∷ []) ≡ suc n))
take_cut n [] = inl (omega arith, refl)
take_cut zero (x ∷ xs) = inr ([], x, xs, refl, refl, refl)
take_cut (suc n) (x ∷ xs) = elim (take_cut n xs) [
  | inl (short, all) ↦ inl (omega arith, ap (λ l. x ∷ l) all)
  | inr (init, c, rest, e, cut, size) ↦
      inr (x ∷ init, c, rest, ap (λ l. x ∷ l) e, ap (λ l. x ∷ l) cut, ap suc size)
]

pub last_of-append :
    (vs : List NotificationView) (v : NotificationView) → last_of (vs ++ v ∷ []) ≡ some v
last_of-append [] v = refl
last_of-append (u ∷ []) v = refl
last_of-append (u ∷ t ∷ vs) v = last_of-append (t ∷ vs) v

ok-injective : (a b : ListFilter) (e : Result ListFilter BadRequest) → ok a ≡ e → ok b ≡ e → a ≡ b
ok-injective a b e h k = cc

limit_fixed : (f : ListFilter) → (normalize f).limit ≡ pos (page_size (normalize f))
unfolding normalize
limit_fixed f = ground arith

-- The handler's filter at a cursor is that at no cursor, with the cursor.
abbrev pub AtCursors : Result Bool BadRequest → Result ℤ BadRequest → ListFilter → Type 0
AtCursors u l f =
    ((c : Cursor) → filter_of u l (ok (some c)) ≡ ok (record f { before = some c }))
    × (f ≡ record f { before = none })
    × (f.limit ≡ pos (page_size f))

filter_at :
    (u : Result Bool BadRequest) (l : Result ℤ BadRequest) (f : ListFilter)
    → filter_of u l (ok none) ≡ ok f
    → AtCursors u l f
unfolding normalize
filter_at (err e) l f h = cc
filter_at (ok u) (err e) f h = cc
filter_at (ok u) (ok l) f h =
    let first : ListFilter = record { unread_only = u; limit = l; before = none } in
    subst (AtCursors (ok u) (ok l)) (ok-injective (normalize first) f _ refl (sym h))
      (λ c. refl, refl, limit_fixed first)

pub above_zero : (n : ℕ) → 1 ≤ n → (m : ℕ) × (n ≡ suc m)
above_zero zero h = absurd (omega arith)
above_zero (suc m) h = (m, refl)

pub first_page :
    (user : Uuid) (f : ListFilter) (t : Table)
    → list_for_recipient none user (record f { before = none }) t
      ≡ ok (map from_notification_row (take (page_size f) (mailbox user f t)))
unfolding list_for_recipient normalize
first_page user f t = refl

-- A row whose place a cursor can carry.
abbrev pub IsSeekable : Codec → NotificationRow → Type 0
IsSeekable codec r =
    (codec.is_json_time r.created_at ≡ true)
    × (eq_ℤ r.created_at zero_time ≡ false)
    × ((r.id == 0) ≡ false)

module _ (codec : Codec) where
  cursor_back :
      (r : NotificationRow)
      → IsSeekable codec r
      → decode_cursor codec (encode_cursor codec (cursor_of r)) ≡ ok (cursor_of r)
  unfolding decode_cursor encode_cursor
  cursor_back r (t, z, i) =
      rw (codec.decode-encode (codec.marshal r.created_at r.id))
        (rw (codec.unmarshal-marshal r.created_at r.id t) (rw (z, i) refl))

  pub token_ne : (c : Cursor) → is_empty (encode_cursor codec c) ≡ false
  unfolding encode_cursor
  token_ne c =
      is_empty-ne _
        (codec.encode_ne (codec.marshal c.created_at c.id) (codec.marshal_ne c.created_at c.id))

  -- The filter of the request for the page behind a row.
  pub parse_at :
      (q : Query) (f : ListFilter)
      → parse_list_filter codec (record q { cursor = [] }) ≡ ok f
      → AtCursors (unread_of q.unread) (limit_of q.limit) f
        × ((r : NotificationRow)
            → IsSeekable codec r
            → parse_list_filter codec (record q { cursor = encode_cursor codec (cursor_of r) })
              ≡ ok (record f { before = some (cursor_of r) }))
  unfolding parse_list_filter
  parse_at q f h =
      let at = filter_at (unread_of q.unread) (limit_of q.limit) f h in
      (at, λ r s. rw (token_ne (cursor_of r)) (rw (cursor_back r s) (at.0 (cursor_of r))))
