-- ===== src/Platform/Examples/World.antt =====
-- Addresses of one letter, floats that are numbers, and a limiter, for the examples.
use kopiochi.Prelude.{
  ℕ, pos, pos_part, true, Option, none, some, [], ◌∷◌, Text, leb, ◌==◌, arith, ◌-◌, ◌*◌, ◌≡◌, ◌≤◌,
  ◌+◌, refl, if◌then◌else◌,
}
use native.Mathlib.Nat.{mul-le-mul_right}
use kopiochi.Platform.ClientIp.{Net}
use kopiochi.Platform.RateLimit.{Floats, Config, RateLimiter}

-- An address is a text that is not empty: its first byte and the rest. A prefix is a first byte.
abbrev pub toy_parse : Text → Option (ℕ × Text)
toy_parse [] = none
toy_parse (b ∷ s) = some (b, s)

abbrev toy_prefix : Text → Option ℕ
toy_prefix [] = none
toy_prefix (b ∷ s) = some b

abbrev pub toy_net : Net (ℕ × Text) ℕ
toy_net = record {
  parse_addr = toy_parse;
  addr_text = λ a. a.0 ∷ a.1;
  parse_prefix = toy_prefix;
  contains = λ p a. p == a.0;
  split_host = λ s. none;
  parse_addr_nil = refl;
  addr_text_ne = λ a h. cc;
}

abbrev smaller : ℕ → ℕ → ℕ
smaller a b = if leb a b then a else b

pub times_mono : (a b c : ℕ) → leb a b ≡ true → leb (a * c) (b * c) ≡ true
times_mono a b c h =
    let small : a ≤ b = ground arith in
    let times = mul-le-mul_right c small in ground (arith, times)

-- Floats that are whole numbers, with a division that does nothing and seconds of one nanosecond.
abbrev pub toy_floats : Floats ℕ
toy_floats = record {
  leb = leb;
  zero = 0;
  one = 1;
  sixty = 60;
  min = smaller;
  add = λ a b. a + b;
  sub = λ a b. a - b;
  mul = λ a b. a * b;
  div = λ a b. a;
  seconds = λ d. pos_part d;
  to_int = pos;
  to_nanos = pos;
  ceil_seconds = λ d. d;
  leb_trans = λ a b c h k. ground arith;
  min-le_left = λ a b. ground arith;
  min-le_right = λ a b. ground arith;
  min_nonneg = λ a b h k. ground arith;
  min_id = λ a b h k. ground arith;
  add_nonneg = λ a b h k. ground arith;
  add_mono = λ a b c h. ground arith;
  mul_nonneg = λ a b h k. ground arith;
  mul_mono = λ a b c h k l. times_mono a b c k;
  sub_one = λ a h. ground arith;
  div_sixty = λ a h. ground arith;
  positive = λ a h. ground arith;
  seconds_zero = refl;
  seconds_positive = λ d h. ground arith;
  seconds_mono = λ a b h. ground arith;
}

-- One token for each unit of time, three at most, and room for two keys.
abbrev pub toy_config : Config ℕ
toy_config = record { rate = 1; burst = 3; ttl = pos 10; max_keys = pos 2 }

abbrev pub toy_limiter : RateLimiter ℕ
toy_limiter = record { rate = 1; burst = 3; ttl = pos 10; max_keys = pos 2; buckets = [] }
