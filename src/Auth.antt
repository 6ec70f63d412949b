-- ===== src/Auth.antt =====
-- Accounts: identifiers, one-time codes, sessions and login.
pub mod Identifier
pub mod Rows
pub mod Otp
pub mod Sessions
pub mod Login
pub mod Bounds
