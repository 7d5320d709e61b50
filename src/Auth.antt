-- ===== src/Auth.antt =====
-- Who may do what: the permissions of routes, accounts and their sessions.
pub mod Permissions
pub mod Store
pub mod Accounts
pub mod Login
pub mod Sessions
pub mod Recovery
pub mod Steps
mod Examples
