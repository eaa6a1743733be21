-- ===== src/Infra/Jwks.antt =====
-- src/pet/infra/auth/jwks.py and exc.py: the cache of the identity provider's signing keys.
mod Keys
mod Cache
pub mod Parsing
pub mod Refresh
pub mod Outcome
pub mod Invariant
pub mod Frame
pub mod Fetched
pub mod Rate
pub mod Lookup
pub mod Promises
pub mod Created
pub mod Outage
unfoldable pub use Keys.*
unfoldable pub use Cache.*
