-- ===== src/Pairing.antt =====
-- How two instances pair: the requests for a pairing, the peers that may back up here, and their
-- SSH keys. app/backend/src/services/pairing.js with what it calls.
pub mod Store
pub mod Keys
pub mod Peers
pub mod Requests
pub mod Accept
pub mod Callback
pub mod Steps
pub mod Changes
pub mod Answers
pub mod Evolution
pub mod Limits
pub mod Once
pub mod Admitted
pub mod Replaced
mod Examples
