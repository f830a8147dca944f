-- ===== src/Relay.antt =====
-- crates/veil-relay: the relay node and its protocols.
pub mod Forwarding
pub mod Framing
pub mod Mailbox
pub mod PullListener
pub mod Node
pub mod Address
pub mod Config
