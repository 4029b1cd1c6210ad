-- ===== src/Notification/Senders/Mail.antt =====
-- The header block of the message that email_smtp.go builds.
use kopiochi.Prelude.{
  All-append, ℕ, suc, ◌+◌, ◌≡◌, refl, sym, inl, inr, Bool, true, false, Bool-cases, none, some,
  List, [], ◌∷◌, ◌++◌, length, All, Text, arith, codes, ◌==◌, count_by, is_empty, has_byte,
  has_byte-append, fields, fields_free, join_free, trim_space, if◌then◌else◌,
}
use kopiochi.Notification.Domain.Types.{Time, RenderedMessage}
use kopiochi.Notification.Senders.Smtp.{
  Address, Mime, Smtp, Header, one_line_subject, write_headers, common_headers, content_headers,
  content, build,
}

abbrev pub line_feeds : Text → ℕ
line_feeds s = count_by (λ b. b == 10) s

-- Neither the name nor the value has a line feed.
abbrev pub IsOneLine : Header → Type 0
IsOneLine h = (has_byte 10 h.0 ≡ false) × (has_byte 10 h.1 ≡ false)

line_feeds-append : (s t : Text) → line_feeds (s ++ t) ≡ line_feeds s + line_feeds t
line_feeds-append [] t = omega arith
line_feeds-append (b ∷ s) t = ground (arith, line_feeds-append s t)

line_feeds_free : (s : Text) → has_byte 10 s ≡ false → line_feeds s ≡ 0
line_feeds_free [] h = refl
line_feeds_free (b ∷ s) h = ground (arith, line_feeds_free s)

line_feeds-write_headers :
    (hs : List Header) → All IsOneLine hs → line_feeds (write_headers hs) ≡ suc (length hs)
line_feeds-write_headers [] a = refl
line_feeds-write_headers (h ∷ hs) a = omega (
  arith,
  line_feeds-append h.0 (codes ": " ++ (h.1 ++ 13 ∷ 10 ∷ write_headers hs)),
  line_feeds-append h.1 (13 ∷ 10 ∷ write_headers hs),
  line_feeds_free h.0 a.0.0,
  line_feeds_free h.1 a.0.1,
  line_feeds-write_headers hs a.1,
)

written : {A : Type 0} (c : Bool) {a b : A} → (if c then none else some a) ≡ some b → a ≡ b
written true h = cc
written false h = cc

subject_free : (s : Text) → has_byte 10 (one_line_subject s) ≡ false
unfolding one_line_subject
subject_free s = join_free 10 32 (fields s) refl (fields_free 10 s refl)

module _ (mime : Mime) (s : Smtp) (now : Time) (msg : RenderedMessage) (to : Address) where
  content_headers-IsOneLine : All IsOneLine (content_headers mime msg)
  content_headers-IsOneLine = elim (Bool-cases (is_empty msg.html_body)) [
    | inl plain ↦ rw plain ((refl, refl), ((refl, refl), tt))
    | inr html ↦
        rw html ((refl, has_byte-append 10 mime.boundary (codes "\"") mime.boundary_free refl), tt)
  ]

  -- The headers of a message and their values, in the order in which they are sent.
  abbrev pub sent_headers : List Header
  sent_headers =
      (codes "From", s.from.header_text)
      ∷ (codes "To", to.header_text)
      ∷ (codes "Subject", mime.q_encode (one_line_subject msg.subject))
      ∷ (codes "Date", mime.date_text now)
      ∷ (
        codes "Message-ID",
        codes "<"
            ++ (mime.id_text msg.notification_id
                ++ (codes "@" ++ (s.from.domain_part ++ codes ">"))),
      )
      ∷ (codes "Auto-Submitted", codes "auto-generated")
      ∷ (codes "MIME-Version", codes "1.0")
      ∷ (if is_empty msg.html_body
          then (codes "Content-Type", codes "text/plain; charset=\"utf-8\"")
            ∷ (codes "Content-Transfer-Encoding", codes "quoted-printable")
            ∷ []
          else (
            codes "Content-Type",
            codes "multipart/alternative; boundary=\"" ++ (mime.boundary ++ codes "\""),
          )
            ∷ [])

  -- Whatever the subject, the bodies and the ids hold, for addresses that were parsed: the header block
  -- of a message is the lines of From, To, Subject, Date, Message-ID, Auto-Submitted, MIME-Version
  -- and the headers of the content, with these values and no further one. No name or value has a line
  -- feed, so the block has one at the end of each header and of the block, and no other.
  pub build_lem :
      (from_raw to_raw raw : Text)
      → mime.parse_address from_raw ≡ some s.from
      → mime.parse_address to_raw ≡ some to
      → build mime s now msg to ≡ some raw
      → (raw ≡ write_headers sent_headers ++ content mime msg)
        × All IsOneLine sent_headers
        × (line_feeds (write_headers sent_headers) ≡ suc (length sent_headers))
  unfolding build
  build_lem from_raw to_raw raw f t b =
      let hs = common_headers mime s now msg to ++ content_headers mime msg in
      let from_free = mime.header_text_free from_raw s.from f in
      let to_free = mime.header_text_free to_raw to t in
      let message_id : has_byte 10
            (mime.id_text msg.notification_id ++ (codes "@" ++ (s.from.domain_part ++ codes ">")))
          ≡ false =
        has_byte-append 10 (mime.id_text msg.notification_id)
          (codes "@" ++ (s.from.domain_part ++ codes ">")) (mime.id_text_free msg.notification_id)
          (has_byte-append 10 s.from.domain_part (codes ">") from_free.1 refl) in
      let common : All IsOneLine (common_headers mime s now msg to) = (
        (refl, from_free.0),
        (
          (refl, to_free.0),
          (
            (refl, mime.q_encode_free (one_line_subject msg.subject) (subject_free msg.subject)),
            (
              (refl, mime.date_text_free now),
              ((refl, message_id), ((refl, refl), ((refl, refl), tt))),
            ),
          ),
        ),
      ) in
      let all =
        All-append IsOneLine (common_headers mime s now msg to) (content_headers mime msg) common
          content_headers-IsOneLine in
      (sym (written (is_empty (trim_space msg.body)) b), all, line_feeds-write_headers hs all)
