-- ===== src/State.antt =====
-- crates/rigos-state: the image layout, its verification, and the geometry of the state partition.
pub mod Manifest
pub mod Device
pub mod Ids
pub mod Layout
pub mod Geometry
pub mod Init
mod Samples
mod Examples
