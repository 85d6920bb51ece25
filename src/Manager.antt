-- ===== src/Manager.antt =====
-- cmd/main.go: the process that runs the two controllers.
pub mod Flags
pub mod Servers
pub mod Scheme
pub mod Registration
pub mod Platform
pub mod Startup
