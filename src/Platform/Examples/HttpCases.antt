-- ===== src/Platform/Examples/HttpCases.antt =====
-- The theorems on the client address and the rate limiter at concrete inputs.
use mathlib.Core.List.{Memᴰ}
use kopiochi.Prelude.{ℕ, pos, ◌≡◌, refl, inr, none, List, [], ◌∷◌, trim_space, join, ◌-ℤ◌, arith}
use kopiochi.Platform.ClientIp.{Request, peer_addr, resolve_client_ip, client_key, real_ip}
use kopiochi.Platform.ClientIp.Spoofing.{client_key_forwarded}
use kopiochi.Platform.RateLimit.{
  RateLimiter, new_rate_limiter, find_bucket, evict, evict_expired, allow,
}
use kopiochi.Platform.RateLimit.Limits.{IsSound, Event, asks, sweeps, closes, run}
use kopiochi.Platform.RateLimit.Configured.{IsWithin, run-IsWithin}
use kopiochi.Platform.RateLimit.Eviction.{evict_expired-answer}
use kopiochi.Platform.Examples.World.{toy_net, toy_floats, toy_config, toy_limiter}

-- The proxy 9 is trusted. The client 6 says that it is 5, and the header reads "5,6,9".
abbrev forged_request : Request
forged_request = record {
  remote_addr = 57 ∷ [];
  x_forwarded_for = 53 ∷ 44 ∷ 54 ∷ 44 ∷ 57 ∷ [];
  x_real_ip = [];
  stored_ip = none;
}

client_key_forwarded_example :
    (resolve_client_ip toy_net (57 ∷ []) forged_request ≡ 54 ∷ [])
    × (client_key toy_net (real_ip toy_net (57 ∷ []) forged_request) ≡ 54 ∷ [])
client_key_forwarded_example =
    client_key_forwarded toy_net (57 ∷ []) forged_request (54, []) (54 ∷ []) ((57 ∷ []) ∷ [])
      ((57, []), 57, (unfold peer_addr in refl), Memᴰ.head refl, refl) (refl, (refl, tt))
      ((unfold trim_space in refl), (refl, tt))
      (inr ((57, []), 57, (unfold trim_space in refl), Memᴰ.head refl, refl), tt)
      (inr (53 ∷ [], (unfold join in refl)))

abbrev two_asks : List Event
two_asks = asks (pos 0) (1 ∷ []) ∷ sweeps (pos 20) ∷ asks (pos 21) (2 ∷ []) ∷ closes ∷ []

run-IsWithin_example : IsWithin toy_floats toy_config (run toy_floats toy_limiter two_asks)
run-IsWithin_example =
    run-IsWithin toy_floats toy_config toy_limiter two_asks (unfold new_rate_limiter in refl)

-- One key, with one token left at the time 0.
abbrev one_key : RateLimiter ℕ
one_key = record toy_limiter { buckets = (1 ∷ [], record { tokens = 1; last = pos 0 }) ∷ [] }

one_key-IsSound : IsSound toy_floats one_key
one_key-IsSound = record {
  rate = refl;
  burst = refl;
  ttl = omega arith;
  max_keys = omega arith;
  few = omega arith;
  unique = (tt, tt);
  filled = ((refl, refl), tt);
}

evict_expired-answer_example :
    (allow toy_floats (evict_expired toy_floats one_key (pos 20)) (pos 21) (1 ∷ [])).1
    ≡ (allow toy_floats one_key (pos 21) (1 ∷ [])).1
evict_expired-answer_example =
    evict_expired-answer toy_floats one_key (pos 20) (pos 21) (1 ∷ [])
      (record { tokens = 1; last = pos 0 }) one_key-IsSound (omega arith)
      (unfold find_bucket in refl) (inr (unfold evict evict_expired ◌-ℤ◌ in omega arith))
