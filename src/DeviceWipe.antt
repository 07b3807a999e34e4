-- ===== src/DeviceWipe.antt =====
-- apps/api/src/modules/project-auth/project-device-wipe.*.ts: the remote wipe of the devices of a
-- project's users.
pub mod Tables
pub mod Rows
pub mod Crypto
pub mod Receipt
pub mod Keys
pub mod Config
pub mod Bindings
pub mod Mandates
pub mod Reach
