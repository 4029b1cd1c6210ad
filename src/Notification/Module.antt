-- ===== src/Notification/Module.antt =====
-- modules/notification/module.go and enqueuer.go: how the module is put together. The templates of the
-- binary load or they do not, and the host gives a database or none; the router is not modelled.
pub mod Accepted
pub mod Booting
use kopiochi.Prelude.{
  ℕ, ℤ, pos, pos_part, Bool, true, false, not, Option, none, some, List, [], ◌∷◌, ◌++◌, Text,
  if◌then◌else◌,
}
use kopiochi.Notification.Domain.Types.{Channel, email, Result, ok, err}
use kopiochi.Notification.Senders.{Log, in_app_channel, new_log}
use kopiochi.Notification.Senders.Smtp.{
  Mime, Smtp, SmtpConfig, SetupError as SmtpError, port_uses_implicit_tls, new_smtp,
}
use kopiochi.Notification.Application.Setup
use kopiochi.Notification.Application.Setup.{Required, new_service}
use kopiochi.Notification.Dispatcher
use kopiochi.Notification.Dispatcher.{Deps, setup_errors}
use kopiochi.Notification.Config.{DispatcherConfig, Config, ConfigError, validate}

-- A sender of the module.
pub data AnySender : Type 0 where
  in_app : AnySender
  smtp : Smtp → AnySender
  logging : Log → AnySender

pub data ModuleError : Type 0 where
  invalid_config : List ConfigError → ModuleError
  no_database no_templates : ModuleError
  no_smtp : List SmtpError → ModuleError
  no_log_sender : Channel → ModuleError
  no_service : Setup.SetupError → ModuleError
  no_dispatcher : List Dispatcher.SetupError → ModuleError

-- The senders that NewService gets, each with its Channel().
abbrev pub Senders : Type 0
Senders = List (Option (Channel × AnySender))

abbrev pub smtp_config : Config → SmtpConfig
smtp_config c = record {
  host = c.email.smtp_host;
  port = c.email.smtp_port;
  username = c.email.username;
  password = c.email.password;
  from = c.email.from;
  timeout = c.email.timeout;
  implicit_tls = port_uses_implicit_tls c.email.smtp_port;
}

abbrev pub with_log : Senders → Result Log Channel → Result Senders ModuleError
with_log senders (err ch) = err (no_log_sender ch)
with_log senders (ok l) = ok (senders ++ some (l.channel, logging l) ∷ [])

abbrev pub add_log : Config → Senders → Result Senders ModuleError
add_log c senders =
    if c.log_sender.enabled then with_log senders (new_log c.log_sender.channel) else ok senders

abbrev pub with_smtp : Config → Senders → Result Smtp (List SmtpError) → Result Senders ModuleError
with_smtp c senders (err es) = err (no_smtp es)
with_smtp c senders (ok s) = add_log c (senders ++ some (email, smtp s) ∷ [])

-- buildSenders
unfoldable pub build_senders : Mime → Config → Result Senders ModuleError
unfolding new_log new_smtp
build_senders mime c =
    let first : Senders = some (in_app_channel, in_app) ∷ [] in
    if c.email.enabled
    then with_smtp c first (new_smtp mime c.has_resolver (smtp_config c))
    else add_log c first

-- The settings of the dispatcher.
abbrev pub dispatcher_config : DispatcherConfig → Dispatcher.Config
dispatcher_config d = record {
  poll_interval = d.poll_interval;
  workers = d.workers;
  batch_size = d.batch_size;
  stalled_after = d.stalled_after;
  max_attempts = d.max_attempts;
  backoff_base = d.backoff_base;
  backoff_cap = d.backoff_cap;
  drain_timeout = d.drain_timeout;
}

-- What New gives: a module that does nothing, or one with the routing table of its service and a
-- dispatcher that was started.
pub data Module : Type 0 where
  disabled : Module
  running : List (Channel × AnySender) → Dispatcher.Config → Module

abbrev pub all_set : Required
all_set = record {
  has_notifications = true;
  has_preferences = true;
  has_renderer = true;
  has_clock = true;
}

abbrev pub all_deps : Deps
all_deps = record { has_batcher = true; has_notifications = true; has_clock = true }

abbrev pub with_dispatcher :
    List (Channel × AnySender)
    → Dispatcher.Config
    → List Dispatcher.SetupError
    → Result Module ModuleError
with_dispatcher registry cfg [] = ok (running registry cfg)
with_dispatcher registry cfg (e ∷ es) = err (no_dispatcher (e ∷ es))

abbrev pub with_service :
    Config → Result (List (Channel × AnySender)) Setup.SetupError → Result Module ModuleError
with_service c (err e) = err (no_service e)
with_service c (ok registry) =
    let cfg = dispatcher_config c.dispatcher in
    with_dispatcher registry cfg (setup_errors all_deps cfg)

abbrev pub with_senders : Config → Result Senders ModuleError → Result Module ModuleError
with_senders c (err e) = err e
with_senders c (ok senders) = with_service c (new_service all_set senders)

abbrev pub if_valid : {A : Type 0} → List ConfigError → Result A ModuleError → Result A ModuleError
if_valid [] r = r
if_valid (e ∷ es) r = err (invalid_config (e ∷ es))

-- New
unfoldable pub new_module : Mime → Bool → Bool → Config → Result Module ModuleError
new_module mime has_database templates_load c = if_valid (validate c) (
    if not c.enabled
    then ok disabled
    else if not has_database
    then err no_database
    else if not templates_load
    then err no_templates
    else with_senders c (build_senders mime c))

-- What NewEnqueuer gives: one that does nothing, or Enqueue over a routing table.
pub data Enqueuer : Type 0 where
  noop : Enqueuer
  over : List (Channel × AnySender) → Enqueuer

abbrev pub enqueuer_of :
    Result (List (Channel × AnySender)) Setup.SetupError → Result Enqueuer ModuleError
enqueuer_of (err e) = err (no_service e)
enqueuer_of (ok registry) = ok (over registry)

abbrev pub with_routes : Result Senders ModuleError → Result Enqueuer ModuleError
with_routes (err e) = err e
with_routes (ok senders) = enqueuer_of (new_service all_set senders)

-- NewEnqueuer
unfoldable pub new_enqueuer : Mime → Bool → Bool → Config → Result Enqueuer ModuleError
new_enqueuer mime has_database templates_load c = if_valid (validate c) (
    if not c.enabled
    then ok noop
    else if not has_database
    then err no_database
    else if not templates_load
    then err no_templates
    else with_routes (build_senders mime c))
