-- ===== src/Tests.antt =====
-- The theorems at concrete inputs.
mod Data
mod Building
mod Controllers
mod History
mod Steady
mod Ordering
mod Settings
mod Managing
mod Watching
mod Merging
mod Structs
mod Copying
