-- ===== src/Sdk/Delivery.antt =====
-- A message on its way from `send` over the relays to `poll`.
pub mod Fleet
pub mod Travelling
pub mod Sending
pub mod Arrival
pub mod EndToEnd
pub mod Fabric
pub mod Concurrent
pub mod Opened
