-- ===== src/Platform/Authn.antt =====
-- internal/authn/authn.go: the principal of a request. The context is the value that it has under the
-- package's key, if it has one. A copy of a slice or a map is the value itself.
use kopiochi.Prelude.{Option, none, some, List, Text, codes, is_empty, if◌then◌else◌}
use kopiochi.Notification.Application.Ports.{Outcome, returns, panics}

-- Principal
pub record Principal : Type 0 where
  pub subject : Text
  pub scopes : Option (List Text)
  pub extra : Option (List (Text × Text))

abbrev pub Context : Type 0
Context = Option Principal

-- WithPrincipal
abbrev pub with_principal : Context → Principal → Context
with_principal ctx p = some p

-- FromContext
abbrev pub from_context : Context → Option Principal
from_context ctx = ctx

-- MustFromContext
unfoldable pub must_from_context : Context → Outcome Principal
must_from_context none =
    panics (codes "authn: no Principal in context: this handler is not behind an authn.Middleware")
must_from_context (some p) =
    if is_empty p.subject
    then panics (codes "authn: Principal in context has an empty Subject")
    else returns p
