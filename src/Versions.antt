-- ===== src/Versions.antt =====
-- app/backend/src/services/deltaVersion.js, versionBrowser.js and versionSelection.js: the
-- snapshots of a backup, stored as binary deltas where that saves space.
pub mod Store
pub mod Reconstruct
pub mod Rebase
pub mod Prune
pub mod Retention
pub mod Deltaify
pub mod BackupRun
mod Examples
