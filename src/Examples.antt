-- ===== src/Examples.antt =====
-- The theorems at concrete inputs.
pub mod Merged
pub mod Host
pub mod Texts
pub mod Snapshots
pub mod Devices
pub mod Daemon
pub mod Prepared
pub mod CommitTool
pub mod Differ
pub mod Services
pub mod Layers
pub mod Extents
