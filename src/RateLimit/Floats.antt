-- ===== src/RateLimit/Floats.antt =====
-- Go's float64 as ratelimit.go uses it: the operations, and the behaviour of IEEE 754 arithmetic
-- that the limiter relies on. Rounding stays as it is, since no law is about the values.
use falco_ctf_app.Prelude.{Bool, true, ◌≡◌}
use falco_ctf_app.Prelude.Int.{ℤ, ◌≤ℤ◌}

pub record Floats : Type 1 where
  pub F : Type 0
  -- math.Min, +, *, and `tokens--`
  pub min : F → F → F
  pub plus : F → F → F
  pub times : F → F → F
  pub less_one : F → F
  -- `tokens < 1` and `a >= b`
  pub below_one : F → Bool
  pub at_least : F → F → Bool
  -- Duration.Seconds of a number of nanoseconds
  pub seconds : ℤ → F
  -- A rate that is a number and not negative.
  pub is_rate : F → Bool
  -- A minimum that is not below its first argument is that argument.
  pub min_full : (a x : F) → at_least (min a x) a ≡ true → min a x ≡ a
  -- Rounded sums and products keep the order, so a full bucket stays full.
  pub stays_full :
      (burst tokens rate : F) (d d' : ℤ)
      → is_rate rate ≡ true
      → d ≤ℤ d'
      → at_least (min burst (plus tokens (times (seconds d) rate))) burst ≡ true
      → at_least (min burst (plus tokens (times (seconds d') rate))) burst ≡ true
