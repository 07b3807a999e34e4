-- ===== src/Updater.antt =====
-- apps/updater: the service that checks for, downloads, applies and rolls back releases.
pub mod Status
pub mod World
pub mod Start
pub mod Rollback
pub mod Operations
pub mod Semver
pub mod Manifest
