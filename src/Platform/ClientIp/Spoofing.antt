-- ===== src/Platform/ClientIp/Spoofing.antt =====
-- What a client can do to the address that internal/middleware/clientip.go resolves for it.
use mathlib.Core.List.{Memᴰ}
use kopiochi.Prelude.{
  true, false, ◌≡◌, ◌≢◌, refl, ap, sym, ◌∙◌, ◌⊎◌, inl, inr, trim_space, if◌then◌else◌, ℕ,
  Option-cases, none, some, List, [], ◌∷◌, ◌++◌, All, Text, arith, is_empty, is_empty-ne, has_byte,
  split, split-append, split-join, join,
}
use kopiochi.Platform.ClientIp.{
  Net, Request, comma, or_else, in_trusted, any_contains, is_trusted, untrusted_text, peer_addr,
  hop, walk, resolve_client_ip, real_ip, client_key,
}

module _ {A P : Type 0} (net : Net A P) where
  -- The text is an address that a trusted prefix contains.
  abbrev pub IsTrusted : List P → Text → Type 0
  IsTrusted trusted ip =
      (b : A) × (p : P) × (net.parse_addr ip ≡ some b) × Memᴰ p trusted × (net.contains p b ≡ true)

  -- An entry of a proxy, or one that is no address.
  abbrev pub IsSkipped : List P → Text → Type 0
  IsSkipped trusted part =
      (net.parse_addr (trim_space part) ≡ none) ⊎ IsTrusted trusted (trim_space part)

  -- The entry of a client: it parses to an address that no trusted prefix contains.
  abbrev pub IsClient : List P → A → Text → Type 0
  IsClient trusted a part =
      (net.parse_addr (trim_space part) ≡ some a) × All (λ p. net.contains p a ≡ false) trusted

  any_contains-member :
      (ps : List P) (b : A) (p : P)
      → Memᴰ p ps
      → net.contains p b ≡ true
      → any_contains net ps b ≡ true
  any_contains-member [] b p m h = elim m [ ]
  any_contains-member (q ∷ ps) b p (Memᴰ.head e) h = rw (sym e) (rw h refl)
  any_contains-member (q ∷ ps) b p (Memᴰ.tail m) h =
      let rest = any_contains-member ps b p m h in ground arith

  any_contains-none :
      (ps : List P) (a : A) → All (λ p. net.contains p a ≡ false) ps → any_contains net ps a ≡ false
  any_contains-none [] a h = refl
  any_contains-none (p ∷ ps) a h = rw h.0 (any_contains-none ps a h.1)

  is_trusted-true :
      (trusted : List P) (ip : Text) → IsTrusted trusted ip → is_trusted net trusted ip ≡ true
  is_trusted-true trusted ip (b, p, e, m, h) = rw e (any_contains-member trusted b p m h)

  hop_skipped :
      (trusted : List P) (part : Text) → IsSkipped trusted part → hop net trusted part ≡ none
  hop_skipped trusted part (inl e) = rw e refl
  hop_skipped trusted part (inr (b, p, e, m, h)) =
      ap (untrusted_text net trusted (trim_space part)) e
      ∙ ap (λ t. if t then none else some (net.addr_text b))
          (is_trusted-true trusted (trim_space part) (b, p, e, m, h))

  hop_client :
      (trusted : List P) (a : A) (part : Text)
      → IsClient trusted a part
      → hop net trusted part ≡ some (net.addr_text a)
  hop_client trusted a part (e, h) =
      ap (untrusted_text net trusted (trim_space part)) e
      ∙ ap (λ t. if t then none else some (net.addr_text a))
          (ap (in_trusted net trusted) e ∙ any_contains-none trusted a h)

  walk-append :
      (trusted : List P) (ps qs : List Text)
      → walk net trusted (ps ++ qs) ≡ or_else (walk net trusted qs) (walk net trusted ps)
  unfolding walk
  walk-append trusted [] qs = ground arith
  walk-append trusted (p ∷ ps) qs = ground (arith, walk-append trusted ps qs)

  walk_skipped :
      (trusted : List P) (ps : List Text) → All (IsSkipped trusted) ps → walk net trusted ps ≡ none
  unfolding walk
  walk_skipped trusted [] h = refl
  walk_skipped trusted (p ∷ ps) h = rw (walk_skipped trusted ps h.1) (hop_skipped trusted p h.0)

  nonempty_cons : (forged : Text) (c : ℕ) (rest : Text) → is_empty (forged ++ c ∷ rest) ≡ false
  nonempty_cons [] c rest = refl
  nonempty_cons (b ∷ s) c rest = refl

  -- The header ends with these entries, behind any text and a comma or behind nothing.
  abbrev pub EndsWith : Text → List Text → Type 0
  EndsWith header entries =
      (header ≡ join comma entries)
      ⊎ ((forged : Text) × (header ≡ forged ++ comma ∷ join comma entries))

  walk_client :
      (trusted : List P) (a : A) (ps : List Text) (client : Text) (hops : List Text)
      → IsClient trusted a client
      → All (IsSkipped trusted) hops
      → walk net trusted (ps ++ client ∷ hops) ≡ some (net.addr_text a)
  unfolding walk
  walk_client trusted a ps client hops c skipped =
      walk-append trusted ps (client ∷ hops)
      ∙ rw (walk_skipped trusted hops skipped) (rw (hop_client trusted a client c) refl)

  walk_header :
      (trusted : List P) (a : A) (header client : Text) (hops : List Text)
      → All (λ p. has_byte comma p ≡ false) (client ∷ hops)
      → IsClient trusted a client
      → All (IsSkipped trusted) hops
      → EndsWith header (client ∷ hops)
      → walk net trusted (split comma header) ≡ some (net.addr_text a)
  walk_header trusted a header client hops free c skipped (inl e) =
      rw e (rw (split-join comma client hops free) (walk_client trusted a [] client hops c skipped))
  walk_header trusted a header client hops free c skipped (inr (forged, e)) = rw e (
      rw (split-append comma forged (join comma (client ∷ hops))) (
        rw (split-join comma client hops free)
          (walk_client trusted a (split comma forged) client hops c skipped)))

  client_nonempty :
      (trusted : List P) (a : A) (client : Text) → IsClient trusted a client → client ≢ []
  unfolding trim_space
  client_nonempty trusted a client c e =
      let nothing = ap (λ s. net.parse_addr (trim_space s)) e in
      let none_there = net.parse_addr_nil in let there = c.0 in cc

  join_nonempty : (b : ℕ) (s : Text) (ps : List Text) → is_empty (join comma ((b ∷ s) ∷ ps)) ≡ false
  unfolding join
  join_nonempty b s [] = refl
  join_nonempty b s (p ∷ ps) = refl

  header_nonempty :
      (header client : Text) (hops : List Text)
      → client ≢ []
      → EndsWith header (client ∷ hops)
      → is_empty header ≡ false
  header_nonempty header [] hops n e = absurd (n refl)
  header_nonempty header (b ∷ s) hops n (inl e) = rw e (join_nonempty b s hops)
  header_nonempty header (b ∷ s) hops n (inr (forged, e)) =
      rw e (nonempty_cons forged comma (join comma ((b ∷ s) ∷ hops)))

  peer_nonempty :
      (trusted : List P) (ip : Text) → is_trusted net trusted ip ≡ true → is_empty ip ≡ false
  peer_nonempty trusted [] h = cc (ap (in_trusted net trusted) net.parse_addr_nil)
  peer_nonempty trusted (b ∷ s) h = refl

  trusted_nonempty :
      (trusted : List P) (ip : Text) → is_trusted net trusted ip ≡ true → is_empty trusted ≡ false
  trusted_nonempty [] ip h = elim (Option-cases (net.parse_addr ip)) [
    | inl e ↦ cc (ap (in_trusted net []) e)
    | inr (a, e) ↦ cc (ap (in_trusted net []) e)
  ]
  trusted_nonempty (p ∷ ps) ip h = refl

  untrusted_peer :
      (trusted : List P) (r : Request)
      → is_trusted net trusted (peer_addr net r.remote_addr) ≡ false
      → resolve_client_ip net trusted r ≡ peer_addr net r.remote_addr
  unfolding resolve_client_ip
  untrusted_peer trusted r h = rw h (ground arith)

  -- If the peer is not a trusted proxy, the address is that of the peer whatever the headers say: two
  -- requests from one peer have one rate-limit key.
  pub client_key_untrusted :
      (trusted : List P) (r r' : Request)
      → r.remote_addr ≡ r'.remote_addr
      → is_trusted net trusted (peer_addr net r.remote_addr) ≡ false
      → (resolve_client_ip net trusted r ≡ peer_addr net r.remote_addr)
        × (client_key net (real_ip net trusted r) ≡ client_key net (real_ip net trusted r'))
  unfolding client_key real_ip
  client_key_untrusted trusted r r' same h =
      let mine = untrusted_peer trusted r h in
      let theirs =
        untrusted_peer trusted r'
          (ap (λ x. is_trusted net trusted (peer_addr net x)) (sym same) ∙ h) in
      let both = mine ∙ (ap (peer_addr net) same ∙ sym theirs) in (mine, ground (arith, both))

  -- Behind a trusted proxy: if X-Forwarded-For ends with the entry of a client, an address that no
  -- trusted prefix contains, and entries that are trusted or no addresses, then the address and the
  -- rate-limit key are those of that client, whatever stands before them, or nothing, and whatever
  -- X-Real-Ip says.
  pub client_key_forwarded :
      (trusted : List P) (r : Request) (a : A) (client : Text) (hops : List Text)
      → IsTrusted trusted (peer_addr net r.remote_addr)
      → All (λ p. has_byte comma p ≡ false) (client ∷ hops)
      → IsClient trusted a client
      → All (IsSkipped trusted) hops
      → EndsWith r.x_forwarded_for (client ∷ hops)
      → (resolve_client_ip net trusted r ≡ net.addr_text a)
        × (client_key net (real_ip net trusted r) ≡ net.addr_text a)
  unfolding client_key real_ip resolve_client_ip
  client_key_forwarded trusted r a client hops proxy free c skipped xff =
      let peer = is_trusted-true trusted (peer_addr net r.remote_addr) proxy in
      let some_peer = peer_nonempty trusted (peer_addr net r.remote_addr) peer in
      let some_trusted = trusted_nonempty trusted (peer_addr net r.remote_addr) peer in
      let walked = walk_header trusted a r.x_forwarded_for client hops free c skipped xff in
      let nonempty =
        header_nonempty r.x_forwarded_for client hops (client_nonempty trusted a client c) xff in
      let named = is_empty-ne (net.addr_text a) (net.addr_text_ne a) in
      let resolved : resolve_client_ip net trusted r ≡ net.addr_text a =
        rw (some_peer, some_trusted, peer) (rw nonempty (rw walked refl)) in
      (resolved, rw resolved (rw named refl))
