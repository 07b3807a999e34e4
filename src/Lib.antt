-- ===== src/Lib.antt =====
-- A verification library for Druvia, a self-hosted backend platform: authorization, storage access,
-- data access policies, project actors, the device wipe and the updater.
--
-- The parts and how they interact:
--   Every route of the API is guarded by a check of a project capability or of a workspace
--   (Authorization). A request's user is turned into the actor of a project (ProjectActor), which the
--   storage checks (Storage) and, through session variables, the permissions of the database
--   (DataAccess) decide on. The device wipe (DeviceWipe) hands signed mandates to the devices of a
--   project's users and takes their receipts. The updater is a service of its own (Updater), which
--   changes the release files and records its status in a file.
--
-- The files:
--   Prelude: Boolean tests, results with their bind, list functions over the native numbers, JSON
--     values, and texts as lists of numbers.
--   Authorization: apps/api/src/lib/project-authorization.ts and
--     packages/shared/src/types/project-members.ts. Tables holds the data and the database tables,
--     Authorization the check of a capability (assertProjectCapability), Workspace the access to a
--     workspace and the listing of its projects (assertTenantAccess, listAccessibleProjectIds),
--     Guards the route guards and the project of a schema (requireSchemaCapability,
--     resolveSchemaProject). The statements of SQL are functions on the tables: a join on a key is
--     `find`, EXISTS is `any`, DISTINCT and LIMIT are functions of their names.
--   Storage: apps/api/src/modules/storage/storage-access.service.ts (Access) and storage-path.ts
--     (Path), texts as lists of UTF-16 code units.
--   DataAccess: apps/api/src/modules/data-access/data-access.types.ts (Types) and
--     data-access-policy.ts (Policy validates, Policy/Materialize makes the permissions).
--     Policy/Materialize/Rows says which rows a permission of Hasura opens. Managed is
--     data-access-managed-policy.ts (the columns of a table, the transition of a policy), Managed/Extend
--     extendProjectionColumnGrants, Managed/Recover
--     isRecoverablePermissionSnapshot, and Managed/Reconcile previewPolicyReconcile of
--     data-access-policy-operation.service.ts, which composes them with Policy.
--   ProjectActor: apps/api/src/lib/project-actor.ts. Context has the contexts, the parser and the
--     resolution, Claims what is passed on.
--   DeviceWipe: apps/api/src/modules/project-auth/project-device-wipe.service.ts (registration in
--     Bindings, query and acknowledgement in Mandates, configuration and keys in Config and Keys),
--     project-device-wipe.crypto.ts (Crypto), project-device-wipe.types.ts and
--     project-session-state.ts (Tables). A transaction is a function on the tables, and an error
--     gives the tables from before. An INSERT fails where a unique constraint of
--     migrations/026_project_device_wipe_mandates.up.sql forbids it, and the retirement of a key
--     where its trigger does. Reach has the calls in any order.
--   Updater: apps/updater/src/update-service.ts, apps/updater/src/state.ts and
--     packages/shared/src/update.ts. Status is the status and the manifest, World the disk, the
--     external calls and the actions on them, World/Triple the statements on actions, Start the start
--     and the end of an operation and the recovery after a restart, Rollback the rollback, Operations
--     the check, the download, the application and the restart. Semver and Manifest are
--     apps/updater/src/manifest.ts: the order of versions and the check of a release manifest.
--     Operations takes the check as a parameter, which Manifest/Applied gives.
--   Each Examples file applies the theorems to concrete data.
--
-- Conventions and bounds:
--   A class of errors is a data type, and what throws returns a result. In the updater an action is a
--   function on a world; a command of Docker, a copy or a request is an external call, whose result
--   is taken from a sequence that the theorems leave arbitrary. The only loop with a bound, the wait
--   for the rollback lock, has the 40 attempts of the source; all other recursion is structural.
--   The functions of the runtime and of packages (NFC, trim, the length of a string, String(n),
--   parseEnv, SHA-256, URL, Date.parse, the rounding of Number) are parameters, with what is relied
--   on as records of laws (IsNfc, IsTrim).
--
-- What is not modelled:
--   Of the managed policies: the digests and the snapshots (stableDigest, permissionSnapshotDigest and
--   createPermissionSnapshot are parameters, with any values), the classification of a table, the
--   stored operations and their recovery.
--   Of the device wipe: the functions of a project and their inspection (parameters, with any
--   answers), the checks of the form of texts in the tables, two rows of one order of creation, and
--   calls at the same time, which the lock of a project puts in order. JSON numbers that are no
--   natural numbers.
--   Times and the messages for a reader. Writes of the state file and reads of it are taken to
--   succeed, a copy or a rename that fails is taken to leave its target as it was, and the two
--   copies of a backup are one entry that is there as a whole. The watchdog of the rollback is seen
--   by its effect, a probe or a command that fails. The loop of the health checks is one call. The
--   order of the rows of resolveSchemaProject, which decides nothing where one row is used.
--   encodeStorageObjectPath. The parts of the repository that no file above names: the other modules
--   of the API, the admin interface and the SDK.
pub mod Prelude
pub mod Authorization
pub mod Storage
pub mod DataAccess
pub mod ProjectActor
pub mod DeviceWipe
pub mod Updater
