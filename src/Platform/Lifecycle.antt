-- ===== src/Platform/Lifecycle.antt =====
-- internal/lifecycle/stack.go: the closers of a process, in the order of their registration. `W` is
-- the state of the world that a closer changes; the log is not modelled.
pub mod Order
use kopiochi.Prelude.{ℕ, Option, none, some, List, [], ◌∷◌, ◌++◌, length, Text}
use mathlib.Core.List.{reverse}

-- entry
pub record Entry (W : Type 0) : Type 0 where
  pub name : Text
  pub close : W → W × Option Text

-- Stack
abbrev pub Stack : Type 0 → Type 0
Stack W = List (Entry W)

-- New
abbrev pub new_stack : {W : Type 0} → Stack W
new_stack = []

-- `errs = append(errs, fmt.Errorf("%s: %w", e.name, err))`
abbrev pub noted : Text → Option Text → List (Text × Text) → List (Text × Text)
noted name none errs = errs
noted name (some e) errs = (name, e) ∷ errs

module _ {W : Type 0} where
  -- Push
  abbrev pub push : Stack W → Text → (W → W × Option Text) → Stack W
  push s name close = s ++ record { name = name; close = close } ∷ []

  -- Len
  abbrev pub len : Stack W → ℕ
  len s = length s

  -- The loop of Shutdown, over the entries from the last to the first.
  unfoldable pub close_all : List (Entry W) → W → W × List (Text × Text)
  close_all [] w = (w, [])
  close_all (e ∷ es) w =
      let (w', failed) = e.close w in
      let (w'', errs) = close_all es w' in (w'', noted e.name failed errs)

  -- Shutdown: the names and the errors that it joins; no error if there are none.
  unfoldable pub shutdown : Stack W → W → W × List (Text × Text)
  unfolding close_all
  shutdown s w = close_all (reverse s) w
