-- ===== src/Notification/Senders.antt =====
-- modules/notification/infrastructure/sender: inapp.go and log.go; Smtp is email_smtp.go.
pub mod Smtp
pub mod Mail
use kopiochi.Prelude.{ℕ, Bool, true, false, Option, none, some, Text, if◌then◌else◌}
use kopiochi.Notification.Domain.Types.{
  Channel, inapp, valid_channel, RenderedMessage, Result, ok, err,
}

-- InApp.Channel
abbrev pub in_app_channel : Channel
in_app_channel = inapp

-- InApp.Send
abbrev pub send_in_app : {W E : Type 0} → W → RenderedMessage → W × Option E
send_in_app w msg = (w, none)

-- Log, as the channel that it claims.
pub record Log : Type 0 where
  pub channel : Channel

-- NewLog: the error names the channel.
unfoldable pub new_log : Channel → Result Log Channel
new_log ch = if valid_channel ch then ok (record { channel = ch }) else err ch

-- Log.Send, without the lines that it logs.
abbrev pub send_log : {W E : Type 0} → Log → W → RenderedMessage → W × Option E
send_log l w msg = (w, none)
