-- ===== src/Sdk.antt =====
-- The client library: crates/veil-sdk.
pub mod Envelope
pub mod Session
pub mod Client
pub mod Receiver
pub mod Delivery
pub mod CoverTraffic
