-- ===== src/DataAccess.antt =====
-- apps/api/src/modules/data-access: the access policy of a table and the permissions made from it.
pub mod Types
pub mod Policy
pub mod Managed
