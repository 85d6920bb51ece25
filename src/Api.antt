-- ===== src/Api.antt =====
-- The two custom resources, api/v1.
pub mod Metrics
pub mod Monitor
pub mod Layout
pub mod Memory
pub mod DeepCopy
