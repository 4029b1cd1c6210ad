-- ===== src/Notification/Examples/MailCases.antt =====
-- The theorems on the mail that the SMTP sender builds and on the wiring at concrete inputs.
use kopiochi.Prelude.{
  suc, ◌≡◌, refl, ap, sym, ◌∙◌, Bool-cases, inl, inr, Bool, true, false, Option, none, some, List,
  [], ◌∷◌, ◌++◌, length, All, Text, codes, pos, has_byte, trim_space, if◌then◌else◌,
}
use kopiochi.Notification.Domain.Types.{Channel, inapp, email, ok, RenderedMessage}
use kopiochi.Notification.Application.Setup.{find_sender}
use mathlib.Core.Option.{some-injective}
use kopiochi.Notification.Config.{
  Config, validate, validate_dispatcher, validate_email, validate_log_sender,
}
use kopiochi.Notification.Senders.Smtp.{
  Address, Mime, Smtp, write_headers, common_headers, content_headers, content, build,
}
use kopiochi.Notification.Senders.Mail.{line_feeds, IsOneLine, sent_headers, build_lem}
use kopiochi.Notification.Module.{
  AnySender, in_app, running, over, dispatcher_config, new_module, new_enqueuer,
}
use kopiochi.Notification.Module.Booting.{email_sender, new_module_lem}

-- An address is any text without a line feed, written as it is; so is everything else.
abbrev toy_address : Text → Address
toy_address s = record { header_text = s; address = s; domain_part = [] }

abbrev toy_parse : Text → Option Address
toy_parse s = if has_byte 10 s then none else some (toy_address s)

parse_free :
    (s : Text) (a : Address)
    → toy_parse s ≡ some a
    → (has_byte 10 a.header_text ≡ false) × (has_byte 10 a.domain_part ≡ false)
parse_free s a h = elim (Bool-cases (has_byte 10 s)) [
  | inl bad ↦ cc
  | inr free ↦
      let same : toy_address s ≡ a = some-injective (toy_address s) a (sym (ap choose free) ∙ h) in
      (
        ap (λ x. has_byte 10 x.header_text) (sym same) ∙ free,
        ap (λ x. has_byte 10 x.domain_part) (sym same),
      )
]
  where
    choose : Bool → Option Address
    choose b = if b then none else some (toy_address s)

abbrev toy_mime : Mime
toy_mime = record {
  parse_address = toy_parse;
  q_encode = λ s. s;
  quoted = λ s. s;
  boundary = codes "b";
  part = λ kind body. kind ++ body;
  last = [];
  date_text = λ t. codes "now";
  id_text = λ u. codes "7";
  header_text_free = parse_free;
  q_encode_free = λ s h. h;
  boundary_free = refl;
  date_text_free = λ t. refl;
  id_text_free = λ u. refl;
}

abbrev toy_smtp : Smtp
toy_smtp = record {
  cfg = record {
    host = codes "mail";
    port = pos 25;
    username = [];
    password = codes "s";
    from = codes "us";
    timeout = pos 1;
    implicit_tls = false;
  };
  from = toy_address (codes "us");
}

-- The subject "a", a line feed, "Bcc: x".
abbrev injecting : RenderedMessage
injecting = record {
  notification_id = 7;
  recipient_id = 42;
  channel = email;
  subject = codes "a" ++ 10 ∷ codes "Bcc: x";
  body = codes "hello";
  html_body = [];
}

abbrev injected_raw : Text
injected_raw =
    write_headers (
      common_headers toy_mime toy_smtp (pos 1) injecting (toy_address (codes "you"))
      ++ content_headers toy_mime injecting)
    ++ content toy_mime injecting

build_lem_example :
    let hs = sent_headers toy_mime toy_smtp (pos 1) injecting (toy_address (codes "you")) in
    (injected_raw ≡ write_headers hs ++ codes "hello")
    × All IsOneLine hs
    × (line_feeds (write_headers hs) ≡ suc (length hs))
build_lem_example =
    build_lem toy_mime toy_smtp (pos 1) injecting (toy_address (codes "you")) (codes "us")
      (codes "you") injected_raw refl refl (unfold build trim_space in refl)

abbrev settings : Config
settings = record {
  enabled = true;
  dispatcher = record {
    poll_interval = pos 1;
    batch_size = pos 10;
    workers = pos 2;
    max_attempts = pos 5;
    backoff_base = pos 1;
    backoff_cap = pos 9;
    stalled_after = pos 3;
    drain_timeout = pos 5;
  };
  email = record {
    enabled = true;
    smtp_host = codes "mail";
    smtp_port = pos 25;
    from = codes "us@here";
    username = [];
    timeout = pos 1;
    password = codes "s";
  };
  log_sender = record { enabled = false; channel = inapp };
  has_auth = true;
  has_resolver = true;
}

new_module_lem_example :
    (registry : List (Channel × AnySender)) × (new_module toy_mime true true settings
      ≡ ok (running registry (dispatcher_config settings.dispatcher)))
    × (new_enqueuer toy_mime true true settings ≡ ok (over registry))
    × (find_sender inapp registry ≡ some in_app)
    × (find_sender email registry ≡ email_sender settings (toy_address (codes "us@here")))
new_module_lem_example =
    new_module_lem toy_mime settings (toy_address (codes "us@here"))
      (unfold validate validate_dispatcher validate_email validate_log_sender trim_space in refl)
      refl (inr refl)
