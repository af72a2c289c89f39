-- ===== src/Snapshotter.antt =====
-- internal/snapshotter, a module for each file or operation.
pub mod Types
pub mod Paths
pub mod Mounts
pub mod Host
pub mod FsMeta
pub mod Commit
pub mod Create
pub mod Remove
pub mod Queries
pub mod Startup
pub mod Vmdk
pub mod Start
pub mod Api
