-- ===== src/Notification/Senders/Smtp.antt =====
-- modules/notification/infrastructure/sender/email_smtp.go: the settings, the message and the
-- conversation. net/mail, the encoders of mime and time's layout are the parameter `Mime`, the
-- connection and net/smtp the parameter `Client`, over the state `W` of the world.
use kopiochi.Prelude.{
  ℕ, ℤ, pos, Bool, true, false, not, ◌||◌, Option, none, some, List, [], ◌∷◌, ◌++◌, Text, codes,
  is_empty, leb, leb_ℤ, ltb_ℤ, eq_ℤ, join, fields, trim_space, if◌then◌else◌, ◌≡◌, has_byte,
}
use kopiochi.Notification.Domain.Types.{Uuid, Time, Duration, RenderedMessage, Result, ok, err}

-- mail.Address: the text that it is written as in a header, and its address.
pub record Address : Type 0 where
  pub header_text : Text
  pub address : Text
  pub domain_part : Text  -- what follows the first '@'

-- `q_encode` is mime.QEncoding.Encode, `quoted` the quoted-printable writer, `part` and `last` what
-- multipart.Writer writes for a part with its type and for the end. The line feeds of a header's value
-- are those of the texts that it is made of: a parsed address has none.
pub record Mime : Type 0 where
  pub parse_address : Text → Option Address
  pub q_encode : Text → Text
  pub quoted : Text → Text
  pub boundary : Text
  pub part : Text → Text → Text
  pub last : Text
  pub date_text : Time → Text
  pub id_text : Uuid → Text
  pub header_text_free :
      (s : Text) (a : Address)
      → parse_address s ≡ some a
      → (has_byte 10 a.header_text ≡ false) × (has_byte 10 a.domain_part ≡ false)
  pub q_encode_free : (s : Text) → has_byte 10 s ≡ false → has_byte 10 (q_encode s) ≡ false
  pub boundary_free : has_byte 10 boundary ≡ false
  pub date_text_free : (t : Time) → has_byte 10 (date_text t) ≡ false
  pub id_text_free : (u : Uuid) → has_byte 10 (id_text u) ≡ false

-- SMTPConfig, less the TLS settings, which are the client's.
pub record SmtpConfig : Type 0 where
  pub host : Text
  pub port : ℤ
  pub username : Text
  pub password : Text
  pub from : Text
  pub timeout : Duration
  pub implicit_tls : Bool

-- PortUsesImplicitTLS, with smtpsPort.
abbrev pub port_uses_implicit_tls : ℤ → Bool
port_uses_implicit_tls port = eq_ℤ port (pos 465)

pub data SetupError : Type 0 where
  no_resolver no_host bad_port no_password bad_timeout bad_from : SetupError

-- SMTP
pub record Smtp : Type 0 where
  pub cfg : SmtpConfig
  pub from : Address

-- `if bad { errs = append(errs, e) }`
abbrev pub report {ℓ} : {E : Type ℓ} → Bool → E → List E
report true e = e ∷ []
report false e = []

abbrev pub is_none {ℓ} : {A : Type ℓ} → Option A → Bool
is_none none = true
is_none (some a) = false

-- The checks of NewSMTP, all of which are made.
unfoldable pub smtp_errors : Mime → Bool → SmtpConfig → List SetupError
smtp_errors mime has_resolver cfg =
    report (not has_resolver) no_resolver
    ++ (report (is_empty (trim_space cfg.host)) no_host
        ++ (report (leb_ℤ cfg.port (pos 0) || ltb_ℤ (pos 65535) cfg.port) bad_port
            ++ (report (is_empty cfg.password) no_password
                ++ (report (leb_ℤ cfg.timeout (pos 0)) bad_timeout
                    ++ report (is_none (mime.parse_address cfg.from)) bad_from))))

abbrev pub with_from : SmtpConfig → List SetupError → Option Address → Result Smtp (List SetupError)
with_from cfg [] (some a) = ok (record { cfg = cfg; from = a })
with_from cfg errs _ = err errs

-- NewSMTP
unfoldable pub new_smtp : Mime → Bool → SmtpConfig → Result Smtp (List SetupError)
unfolding smtp_errors
new_smtp mime has_resolver cfg =
    with_from cfg (smtp_errors mime has_resolver cfg) (mime.parse_address cfg.from)

-- oneLineSubject
unfoldable pub one_line_subject : Text → Text
one_line_subject s = join 32 (fields s)

-- A header's name and value.
abbrev pub Header : Type 0
Header = Text × Text

-- writeHeaders
abbrev pub write_headers : List Header → Text
write_headers [] = 13 ∷ 10 ∷ []
write_headers (h ∷ hs) = h.0 ++ (codes ": " ++ (h.1 ++ 13 ∷ 10 ∷ write_headers hs))

abbrev pub common_headers : Mime → Smtp → Time → RenderedMessage → Address → List Header
common_headers mime s now msg to =
    (codes "From", s.from.header_text)
    ∷ (codes "To", to.header_text)
    ∷ (codes "Subject", mime.q_encode (one_line_subject msg.subject))
    ∷ (codes "Date", mime.date_text now)
    ∷ (
      codes "Message-ID",
      codes "<"
          ++ (mime.id_text msg.notification_id ++ (codes "@" ++ (s.from.domain_part ++ codes ">"))),
    )
    ∷ (codes "Auto-Submitted", codes "auto-generated")
    ∷ (codes "MIME-Version", codes "1.0")
    ∷ []

-- The headers that come with a message without and with an HTML part.
abbrev pub content_headers : Mime → RenderedMessage → List Header
content_headers mime msg =
    if is_empty msg.html_body
    then (codes "Content-Type", codes "text/plain; charset=\"utf-8\"")
      ∷ (codes "Content-Transfer-Encoding", codes "quoted-printable")
      ∷ []
    else (
      codes "Content-Type",
      codes "multipart/alternative; boundary=\"" ++ (mime.boundary ++ codes "\""),
    )
      ∷ []

abbrev pub content : Mime → RenderedMessage → Text
content mime msg =
    if is_empty msg.html_body
    then mime.quoted msg.body
    else mime.part (codes "text/plain; charset=\"utf-8\"") (mime.quoted msg.body)
      ++ (mime.part (codes "text/html; charset=\"utf-8\"") (mime.quoted msg.html_body) ++ mime.last)

-- The failure of a delivery: whether errors.Is finds ErrNonRetryable in it, and the code of the
-- textproto.Error in it.
pub record SendError : Type 0 where
  pub non_retryable : Bool
  pub code : Option ℕ

-- build: none where the message has no plain-text body, which no retry repairs.
unfoldable pub build : Mime → Smtp → Time → RenderedMessage → Address → Option Text
unfolding one_line_subject
build mime s now msg to =
    if is_empty (trim_space msg.body)
    then none
    else some (
        write_headers (common_headers mime s now msg to ++ content_headers mime msg)
        ++ content mime msg)

abbrev pub is_permanent : Option ℕ → Bool
is_permanent none = false
is_permanent (some code) = leb 500 code

-- classify
abbrev pub classify : SendError → SendError
classify e = record e { non_retryable = e.non_retryable || is_permanent e.code }

-- The connection: each call changes the world and can fail with an error of a code or none.
pub record Client (W : Type 0) : Type 0 where
  pub resolve_email : W → Uuid → W × Result Text SendError
  pub now : W → W × Time
  pub dial : W → W × Option SendError
  pub set_deadline : W → W × Option SendError
  pub handshake : W → W × Option SendError
  pub greeting : W → W × Option SendError
  pub offers_starttls : W → W × Bool
  pub start_tls : W → W × Option SendError
  pub auth : W → Text → Text → W × Option SendError
  pub mail : W → Text → W × Option SendError
  pub rcpt : W → Text → W × Option SendError
  pub data_begin : W → W × Option SendError
  pub write : W → Text → W × Option SendError
  pub data_end : W → W × Option SendError
  pub quit : W → W

module _ {W : Type 0} (c : Client W) (mime : Mime) (s : Smtp) where
  -- `if err != nil { return err }`, and with classify.
  abbrev pub then_do : W × Option SendError → (W → W × Option SendError) → W × Option SendError
  then_do (w, some e) next = (w, some e)
  then_do (w, none) next = next w

  abbrev pub classified : W × Option SendError → W × Option SendError
  classified (w, none) = (w, none)
  classified (w, some e) = (w, some (classify e))

  abbrev pub tls_first : W → W × Option SendError
  tls_first w = if s.cfg.implicit_tls then c.handshake w else (w, none)

  abbrev pub tls_later : W → W × Option SendError
  tls_later w =
      if s.cfg.implicit_tls
      then (w, none)
      else (let (w', offered) = c.offers_starttls w in
          if offered then c.start_tls w' else (w', none))

  abbrev pub username : Text
  username = if is_empty s.cfg.username then s.from.address else s.cfg.username

  -- deliver, from the authentication on.
  abbrev pub transact : Text → Text → W → W × Option SendError
  transact to raw w = then_do (classified (c.auth w username s.cfg.password)) (λ w.
      then_do (classified (c.mail w s.from.address)) (λ w. then_do (classified (c.rcpt w to)) (λ w.
        then_do (classified (c.data_begin w)) (λ w.
          then_do (c.write w raw)
            (λ w. then_do (classified (c.data_end w)) (λ w. (c.quit w, none)))))))

  -- deliver
  unfoldable pub deliver : Text → Text → W → W × Option SendError
  deliver to raw w = then_do (c.dial w) (λ w. then_do (c.set_deadline w) (λ w.
      then_do (tls_first w) (λ w.
        then_do (classified (c.greeting w)) (λ w. then_do (tls_later w) (λ w. transact to raw w)))))

  abbrev pub no_retry : SendError
  no_retry = record { non_retryable = true; code = none }

  abbrev pub with_message : Address → W → Option Text → W × Option SendError
  with_message to w none = (w, some no_retry)
  with_message to w (some raw) = deliver to.address raw w

  abbrev pub with_address : RenderedMessage → W → Option Address → W × Option SendError
  with_address msg w none = (w, some no_retry)
  with_address msg w (some to) =
      let (w', now) = c.now w in with_message to w' (build mime s now msg to)

  abbrev pub resolved : RenderedMessage → W × Result Text SendError → W × Option SendError
  resolved msg (w, err e) = (w, some e)
  resolved msg (w, ok raw) =
      if is_empty (trim_space raw)
      then (w, some no_retry)
      else with_address msg w (mime.parse_address raw)

  -- SMTP.Send, with resolve.
  unfoldable pub send : W → RenderedMessage → W × Option SendError
  unfolding build deliver
  send w msg = resolved msg (c.resolve_email w msg.recipient_id)
