-- ===== src/App.antt =====
-- src/pet/app: the application's errors, its transactions and its use cases.
pub mod Errors
pub mod Auth
pub mod Executor
pub mod Usecases
