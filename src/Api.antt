-- ===== src/Api.antt =====
-- src/pet/api: what the HTTP layer adds to the application.
pub mod Handlers
pub mod Access
pub mod HttpLogging
pub mod Failures
pub mod Routers
pub mod Server
