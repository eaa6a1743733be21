-- ===== src/Infra/Verifier.antt =====
-- src/pet/infra/auth/keycloak_verifier.py: from a raw token to a principal.
mod Claims
mod Verify
pub mod Soundness
pub mod Trust
pub mod Roles
unfoldable pub use Claims.*
unfoldable pub use Verify.*
