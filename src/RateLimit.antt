-- ===== src/RateLimit.antt =====
-- The token buckets of internal/scoreboard/ratelimit/ratelimit.go.
pub mod Floats
pub mod Limiter
pub mod Middleware
pub mod Sweep
pub mod Independent
pub mod Bounded
