-- ===== src/RateLimit.antt =====
-- internal/proxy/ratelimit.go: windows of requests and tokens for each token hash, and the count of
-- requests in flight.
pub mod Clock
pub mod Window
pub mod Limiter
pub mod Sliding
pub mod History
pub mod Invariant
pub mod Calls
pub mod Bounded
pub mod Parallel
pub mod InFlight
pub mod Race
mod Tests
