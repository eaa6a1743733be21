-- ===== src/Tests.antt =====
-- The theorems at concrete inputs.
mod Keys
mod Tokens
mod Names
mod Migrations
mod Transactions
mod Provisioning
mod Responses
mod Events
mod Access
mod Requests
mod Logins
mod Directory
mod Http
mod Boot
mod Deployment
