-- ===== src/Platform/ClientIp.antt =====
-- internal/middleware/clientip.go, and clientKey of internal/httpx/ratelimit.go. The parsers of
-- net/netip and net are the parameter `Net`, over types of addresses and of prefixes.
pub mod Spoofing
use kopiochi.Prelude.{
  ℕ, Bool, true, false, not, ◌||◌, ◌≡◌, ◌≢◌, Option, none, some, List, [], ◌∷◌, Text, is_empty,
  split, trim_space, if◌then◌else◌,
}

-- netip.ParseAddr, Addr.String, netip.ParsePrefix, Prefix.Contains, and the host that
-- net.SplitHostPort gives. An address has a text that is not empty, and the empty text is no address.
pub record Net (A P : Type 0) : Type 0 where
  pub parse_addr : Text → Option A
  pub addr_text : A → Text
  pub parse_prefix : Text → Option P
  pub contains : P → A → Bool
  pub split_host : Text → Option Text
  pub parse_addr_nil : parse_addr [] ≡ none
  pub addr_text_ne : (a : A) → addr_text a ≢ []

-- What of a request is read: RemoteAddr, the two headers, empty where they are missing, and the
-- value that RealIP stores in the context.
pub record Request : Type 0 where
  pub remote_addr : Text
  pub x_forwarded_for : Text
  pub x_real_ip : Text
  pub stored_ip : Option Text

-- The byte ','.
abbrev pub comma : ℕ
comma = 44

-- The first answer that is there.
abbrev pub or_else : Option Text → Option Text → Option Text
or_else none o = o
or_else (some s) o = some s

abbrev pub or_text : Option Text → Text → Text
or_text none s = s
or_text (some t) s = t

module _ {A P : Type 0} (net : Net A P) where
  abbrev keep_parsed : Option P → List P → List P
  keep_parsed none ps = ps
  keep_parsed (some p) ps = p ∷ ps

  -- ParseTrustedProxies, without the warnings that it logs.
  unfoldable pub parse_trusted_proxies : List Text → List P
  parse_trusted_proxies [] = []
  parse_trusted_proxies (c ∷ cs) =
      keep_parsed (net.parse_prefix (trim_space c)) (parse_trusted_proxies cs)

  -- The loop of isTrusted over the prefixes.
  abbrev pub any_contains : List P → A → Bool
  any_contains [] a = false
  any_contains (p ∷ ps) a = net.contains p a || any_contains ps a

  abbrev pub in_trusted : List P → Option A → Bool
  in_trusted trusted none = false
  in_trusted trusted (some a) = any_contains trusted a

  -- isTrusted
  abbrev pub is_trusted : List P → Text → Bool
  is_trusted trusted ip = in_trusted trusted (net.parse_addr ip)

  abbrev pub normal_host : Text → Option A → Text
  normal_host host none = host
  normal_host host (some a) = net.addr_text a

  -- peerAddr
  unfoldable pub peer_addr : Text → Text
  peer_addr remote =
      let host = or_text (net.split_host remote) remote in normal_host host (net.parse_addr host)

  -- One turn of the walk over the entries of X-Forwarded-For: the entry is the answer if it parses
  -- and is not trusted.
  abbrev pub untrusted_text : List P → Text → Option A → Option Text
  untrusted_text trusted candidate none = none
  untrusted_text trusted candidate (some a) =
      if is_trusted trusted candidate then none else some (net.addr_text a)

  abbrev pub hop : List P → Text → Option Text
  hop trusted part =
      let candidate = trim_space part in untrusted_text trusted candidate (net.parse_addr candidate)

  -- The walk, from the last entry to the first.
  unfoldable pub walk : List P → List Text → Option Text
  walk trusted [] = none
  walk trusted (part ∷ parts) = or_else (walk trusted parts) (hop trusted part)

  abbrev pub forwarded : List P → Text → Option Text
  forwarded trusted xff = if is_empty xff then none else walk trusted (split comma xff)

  abbrev pub addr_of : Option A → Option Text
  addr_of none = none
  addr_of (some a) = some (net.addr_text a)

  abbrev pub real_ip_header : Text → Option Text
  real_ip_header raw =
      let ip = trim_space raw in if is_empty ip then none else addr_of (net.parse_addr ip)

  -- resolveClientIP
  unfoldable pub resolve_client_ip : List P → Request → Text
  unfolding peer_addr walk
  resolve_client_ip trusted r =
      let peer = peer_addr r.remote_addr in
      if is_empty peer || (is_empty trusted || not (is_trusted trusted peer))
      then peer
      else or_text (or_else (forwarded trusted r.x_forwarded_for) (real_ip_header r.x_real_ip)) peer

  -- RealIP: the request that it passes on.
  unfoldable pub real_ip : List P → Request → Request
  unfolding resolve_client_ip
  real_ip trusted r = record r { stored_ip = some (resolve_client_ip trusted r) }

  -- ClientIP
  abbrev pub client_ip : Request → Text
  client_ip r = or_text r.stored_ip []

  -- clientKey of the rate limiter.
  unfoldable pub client_key : Request → Text
  client_key r =
      if is_empty (client_ip r)
      then or_text (net.split_host r.remote_addr) r.remote_addr
      else client_ip r
