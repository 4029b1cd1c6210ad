-- ===== src/Notification/Dispatcher/Draining.antt =====
-- The loop of drain of modules/notification/infrastructure/dispatcher/dispatcher.go ends.
use kopiochi.Prelude.{
  ℕ, zero, suc, ◌+◌, ◌≤◌, ◌<◌, pos, ltb_ℤ, ◌≡◌, refl, inl, inr, Bool, true, false, ◌||◌, Bool-cases,
  some, arith, ◌==◌,
}
use kopiochi.Notification.Domain.Backoff.{Floats}
use kopiochi.Notification.Application.Ports.{Ports}
use kopiochi.Notification.Dispatcher.{Config, drain}

module _ {W : Type 0} {fl : Floats} (ports : Ports W fl) (cfg : Config) where
  -- The state after so many cycles.
  abbrev pub cycles : (W → W × ℕ) → ℕ → W → W
  cycles cycle zero w = w
  cycles cycle (suc n) w = cycles cycle n (cycle w).0

  -- Does drain return after a cycle that left this state and claimed so many rows?
  abbrev pub ends : (W → Bool) → W × ℕ → Bool
  ends stopping x = x.1 == 0 || (ltb_ℤ (pos x.1) cfg.batch_size || stopping x.0)

  claims_some : (stopping : W → Bool) (x : W × ℕ) → ends stopping x ≡ false → 0 < x.1
  claims_some stopping (w, zero) h = cc
  claims_some stopping (w, suc n) h = omega arith

  -- drain runs its first cycle whatever `claim` is, and ends: if each cycle leaves that many fewer due
  -- rows as it claims, then after at least one and at most one more cycle than there are due rows,
  -- behind a cycle that claimed nothing or less than a batch, or that found the shutdown begun.
  pub drain_lem :
      (due : W → ℕ) (cycle : W → W × ℕ) (stopping : W → Bool) (fuel : ℕ) (w : W)
      → ((v : W) → due (cycle v).0 + (cycle v).1 ≤ due v)
      → due w < fuel
      → (n : ℕ) × (drain ports cfg fuel cycle stopping w ≡ some (cycles cycle (suc n) w))
        × (n ≤ due w)
        × (ends stopping (cycle (cycles cycle n w)) ≡ true)
  unfolding drain
  drain_lem due cycle stopping zero w less h = absurd (omega arith)
  drain_lem due cycle stopping (suc fuel) w less h = elim (Bool-cases (ends stopping (cycle w))) [
    | inl over ↦ (0, rw over refl, omega arith, over)
    | inr on ↦
        let some_claimed = claims_some stopping (cycle w) on in
        let rest = drain_lem due cycle stopping fuel (cycle w).0 less (omega (arith, less w)) in
        let (n, run, few, last) = rest in (suc n, rw on run, omega (arith, less w), last)
  ]
