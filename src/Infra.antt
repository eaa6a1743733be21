-- ===== src/Infra.antt =====
-- src/pet/infra: the adapters for the identity provider and the database.
pub mod Persistence
pub mod Session
pub mod Uow
pub mod Repos
pub mod Schema
pub mod Tables
pub mod Jwks
pub mod Verifier
