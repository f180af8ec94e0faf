-- ===== src/Store.antt =====
-- internal/store: the tokens in a bbolt database and the cache in front of it.
pub mod Crypto
pub mod Services
pub mod Bolt
pub mod Cache
pub mod Coherence
pub mod Answers
pub mod RoundTrip
pub mod Samples
mod Tests
