-- ===== src/Effect/Clock.antt =====
-- `time.monotonic` and `time.sleep`. Times and durations are numbers of microseconds.
use bitheim.Prelude.{ℕ, ◌+◌, ◌≤◌}
use bitheim.Effect.Errors.{RaisesOnly, Class}
use bitheim.Effect.{M, ask, act}

pub record Clock (W : Type 0) : Type 0 where
  -- the time at which the world stands
  pub time : W → ℕ
  pub monotonic : W → ℕ × W
  pub sleep : ℕ → W → W

-- What the documentation of the two functions says: the clock cannot go backwards, a reading lies between the times
-- before and after the call, and a sleep lasts at least as long as was asked for.
pub record IsMonotonic {W : Type 0} (c : Clock W) : Type 0 where
  pub reading : (w : W) → c.time w ≤ (c.monotonic w).0
  pub read : (w : W) → (c.monotonic w).0 ≤ c.time (c.monotonic w).1
  pub slept : (d : ℕ) (w : W) → c.time w + d ≤ c.time (c.sleep d w)

module _ {W : Type 0} (c : Clock W) where
  unfoldable pub now : M W ℕ
  unfolding ask
  now = ask c.monotonic

  unfoldable pub sleep : ℕ → M W (Unit {0})
  unfolding act
  sleep d = act (c.sleep d)

  pub RaisesOnly-now : {k : Class} → RaisesOnly k now
  unfolding now
  RaisesOnly-now = record { at = λ w. tt }

  pub RaisesOnly-sleep : {k : Class} (d : ℕ) → RaisesOnly k (sleep d)
  unfolding sleep
  RaisesOnly-sleep d = record { at = λ w. tt }

pub ruleset clock_rules = (RaisesOnly-now, RaisesOnly-sleep)
