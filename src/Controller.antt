-- ===== src/Controller.antt =====
-- internal/controller: the two reconcilers.
pub mod Cluster
pub mod Session
pub mod Client
pub mod Triple
pub mod Checks
pub mod Monitor
pub mod Watch
pub mod MetricLibrary
pub mod History
