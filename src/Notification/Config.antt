-- ===== src/Notification/Config.antt =====
-- modules/notification/config.go.
use kopiochi.Prelude.{
  ℤ, pos, Bool, not, ◌&&◌, ◌||◌, List, [], ◌∷◌, ◌++◌, Text, is_empty, leb_ℤ, ltb_ℤ, has_byte,
  trim_space, if◌then◌else◌,
}
use kopiochi.Notification.Domain.Types.{Duration, Channel, inapp, valid_channel, same_channel}
use kopiochi.Notification.Senders.Smtp.{report}

-- DispatcherConfig
pub record DispatcherConfig : Type 0 where
  pub poll_interval : Duration
  pub batch_size : ℤ
  pub workers : ℤ
  pub max_attempts : ℤ
  pub backoff_base : Duration
  pub backoff_cap : Duration
  pub stalled_after : Duration
  pub drain_timeout : Duration

-- EmailConfig; `password` is the text that the secret.String holds.
pub record EmailConfig : Type 0 where
  pub enabled : Bool
  pub smtp_host : Text
  pub smtp_port : ℤ
  pub from : Text
  pub username : Text
  pub timeout : Duration
  pub password : Text

-- LogSenderConfig
pub record LogSenderConfig : Type 0 where
  pub enabled : Bool
  pub channel : Channel

-- Config; of the middleware and the resolver, whether they are set.
pub record Config : Type 0 where
  pub enabled : Bool
  pub dispatcher : DispatcherConfig
  pub email : EmailConfig
  pub log_sender : LogSenderConfig
  pub has_auth : Bool
  pub has_resolver : Bool

pub data ConfigError : Type 0 where
  no_auth : ConfigError
  bad_poll_interval bad_batch_size bad_workers bad_max_attempts bad_backoff_base : ConfigError
  bad_backoff_cap base_over_cap bad_stalled_after stalled_under_poll bad_drain_timeout : ConfigError
  no_resolver bad_timeout no_host bad_port no_from from_without_at no_password : ConfigError
  unknown_log_channel log_for_inapp log_for_email : ConfigError

-- `v <= 0`
abbrev pub not_positive : ℤ → Bool
not_positive v = leb_ℤ v (pos 0)

-- `a > 0 && b > 0 && a > b`
abbrev pub exceeds : ℤ → ℤ → Bool
exceeds a b = not (not_positive a) && (not (not_positive b) && ltb_ℤ b a)

-- DispatcherConfig.validate
unfoldable pub validate_dispatcher : DispatcherConfig → List ConfigError
validate_dispatcher d =
    report (not_positive d.poll_interval) bad_poll_interval
    ++ (report (not_positive d.batch_size) bad_batch_size
        ++ (report (not_positive d.workers) bad_workers
            ++ (report (not_positive d.max_attempts) bad_max_attempts
                ++ (report (not_positive d.backoff_base) bad_backoff_base
                    ++ (report (not_positive d.backoff_cap) bad_backoff_cap
                        ++ (report (exceeds d.backoff_base d.backoff_cap) base_over_cap
                            ++ (report (not_positive d.stalled_after) bad_stalled_after
                                ++ (report (exceeds d.poll_interval d.stalled_after)
                                      stalled_under_poll
                                    ++ report (not_positive d.drain_timeout)
                                        bad_drain_timeout))))))))

-- The test of email.from.
abbrev pub check_from : Text → List ConfigError
check_from from =
    if is_empty (trim_space from)
    then no_from ∷ []
    else report (not (has_byte 64 from)) from_without_at

-- Config.validateEmail
unfoldable pub validate_email : Config → List ConfigError
validate_email c =
    if not c.email.enabled
    then []
    else report (not c.has_resolver) no_resolver
      ++ (report (not_positive c.email.timeout) bad_timeout
          ++ (report (is_empty (trim_space c.email.smtp_host)) no_host
              ++ (report (not_positive c.email.smtp_port || ltb_ℤ (pos 65535) c.email.smtp_port)
                    bad_port
                  ++ (check_from c.email.from ++ report (is_empty c.email.password) no_password))))

-- Config.validateLogSender
unfoldable pub validate_log_sender : Config → List ConfigError
validate_log_sender c =
    if not c.log_sender.enabled
    then []
    else if not (valid_channel c.log_sender.channel)
    then unknown_log_channel ∷ []
    else if same_channel c.log_sender.channel inapp
    then log_for_inapp ∷ []
    else if same_channel c.log_sender.channel Channel.email && c.email.enabled
    then log_for_email ∷ []
    else []

-- Config.Validate: the errors that it joins; no error if there are none.
unfoldable pub validate : Config → List ConfigError
unfolding validate_dispatcher validate_email validate_log_sender
validate c =
    if not c.enabled
    then []
    else report (not c.has_auth) no_auth
      ++ (validate_dispatcher c.dispatcher ++ (validate_email c ++ validate_log_sender c))
