-- ===== src/Builder.antt =====
-- internal/builder: pure functions from a monitor to the objects that it stands for.
pub mod Labels
pub mod Library
pub mod Metrics
pub mod Builtin
pub mod Sources
pub mod MetricsFile
pub mod Hash
pub mod ConfigMap
pub mod Deployment
pub mod Service
pub mod ServiceMonitor
pub mod Discovery
pub mod Wiring
pub mod Rollout
pub mod Alike
pub mod Collected
pub mod Secrecy
pub mod Ignored
