-- ===== src/Routing.antt =====
-- crates/veil-routing: topologies, path selection and circuits.
pub mod Topology
pub mod DummyTraffic
pub mod Discovery
pub mod TopologyFile
pub mod Circuit
pub mod PathSelection
