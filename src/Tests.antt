-- ===== src/Tests.antt =====
-- Concrete databases and runs at which the theorems apply.
pub mod World
mod Policies
mod Claims
mod Accounts
mod Events
mod Keys
mod Retries
mod Deletions
mod Decoding
mod Handlers
mod Nonces
mod Texts
mod Users
