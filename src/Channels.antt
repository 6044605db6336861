-- ===== src/Channels.antt =====
-- internal/channels: the access policy, the pairing of senders, session scopes and account routing.
pub mod Senders
pub mod Access
pub mod Pairing
pub mod Scopes
mod Tests
