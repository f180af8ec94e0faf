-- ===== src/Policy.antt =====
-- internal/policy: the rules, the policies and their resolution.
pub mod Regex
pub mod Pii
pub mod Rule
pub mod Resolve
pub mod Engine
pub mod Checks
pub mod Masking
pub mod Compiled
pub mod Validated
pub mod Resolution
pub mod Parse
pub mod Samples
mod Tests
