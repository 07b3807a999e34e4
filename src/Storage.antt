-- ===== src/Storage.antt =====
-- apps/api/src/modules/storage: who may do what with a storage object, and which object paths are
-- accepted.
pub mod Access
pub mod Path
mod Examples
