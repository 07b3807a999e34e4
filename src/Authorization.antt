-- ===== src/Authorization.antt =====
-- apps/api/src/lib/project-authorization.ts: the roles and their capabilities, the access that a
-- row of the database gives, and the checks of a project capability, of the super administrator,
-- of a workspace and of a schema. The SQL statements are functions on the tables that they read.
mod Tables
pub mod Decision
pub mod Workspace
pub mod Guards
pub mod Examples
pub use Tables.*
use druvia.Prelude.{
  ℕ, ◌==◌, String, str_eq, opt_is, is_some, if◌then◌else◌, Bool, true, false, ◌&&◌, ◌||◌, not,
  Option, none, some, List, [], ◌∷◌, ◌++◌, map, any, find, select, includes, Result, ok, err, ◌>>=◌,
  ◌>>◌, guard, is_ok,
}
use mathlib.Core.Option

-- ROLE_CAPABILITIES
abbrev pub role_capabilities : ProjectEffectiveRole → List ProjectCapability
role_capabilities owner =
    project_read ∷ project_update ∷ runtime_context_manage ∷ project_delete ∷ members_read
    ∷ members_manage ∷ database_read ∷ database_write ∷ database_credentials ∷ data_access_manage
    ∷ auth_manage ∷ api_keys_manage ∷ trusted_keys_manage ∷ storage_manage ∷ functions_manage
    ∷ realtime_manage ∷ environments_manage ∷ backups_read ∷ backups_create ∷ backups_restore ∷ []
role_capabilities (member project_admin) =
    project_read ∷ project_update ∷ members_read ∷ database_read ∷ database_write
    ∷ data_access_manage ∷ auth_manage ∷ api_keys_manage ∷ storage_manage ∷ functions_manage
    ∷ realtime_manage ∷ environments_manage ∷ backups_read ∷ backups_create ∷ backups_restore ∷ []
role_capabilities (member database_admin) =
    project_read ∷ members_read ∷ database_read ∷ database_write ∷ data_access_manage
    ∷ realtime_manage ∷ backups_read ∷ backups_create ∷ []
role_capabilities (member viewer) = project_read ∷ members_read ∷ database_read ∷ []

-- `capabilities.includes(capability)`
unfoldable pub has_capability : List ProjectCapability → ProjectCapability → Bool
has_capability cs c = any (λ d. capability_index d == capability_index c) cs

access_for_role : String → ProjectEffectiveRole → Bool → Bool → ProjectAccess
access_for_role project_id role workspace_owner super_admin = record {
  project_id = project_id;
  role = role;
  capabilities = role_capabilities role;
  is_workspace_owner = workspace_owner;
  is_super_admin = super_admin;
}

-- `find` on the keys of the tables.
unfoldable pub find_project : Database → String → Option Project
find_project db pid = find (λ p. str_eq p.project_id pid) db.projects

unfoldable pub find_tenant : Database → String → Option Tenant
find_tenant db tid = find (λ t. str_eq t.tenant_id tid) db.tenants

unfoldable pub find_user : Database → PlatformJwtUser → Option User
find_user db u = find (λ row. row.id == u.uid && str_eq row.user_id u.user_id) db.users

-- LEFT JOIN druvia_project_members: no row for a user that is not joined.
pub find_member : Database → String → Option User → Option ProjectMember
find_member db pid none = none
find_member db pid (some u) = find (λ m. str_eq m.project_id pid && m.user_uid == u.id) db.members

authorization_row : Database → Project → Tenant → Option User → ProjectAuthorizationRow
authorization_row db p t u = record {
  project_id = p.project_id;
  user_uid = Option.map (λ r. r.id) u;
  user_status = Option.map (λ r. r.status) u;
  platform_role = Option.map (λ r. r.role) u;
  owner_uid = t.owner_uid;
  member_role = Option.map (λ m. m.role) (find_member db p.project_id u);
}

load_for_project : Database → PlatformJwtUser → Option Project → Option ProjectAuthorizationRow
load_for_project db u none = none
load_for_project db u (some p) =
    Option.map (λ t. authorization_row db p t (find_user db u)) (find_tenant db p.tenant_id)

load_project_authorization : Database → RequestUser → String → Option ProjectAuthorizationRow
unfolding load_for_project authorization_row
load_project_authorization db (platform_user u) pid = load_for_project db u (find_project db pid)
load_project_authorization db _ pid = none

member_access : String → Option ProjectMemberRole → Option ProjectAccess
member_access pid none = none
member_access pid (some r) = some (access_for_role pid (member r) false false)

row_access : ProjectAuthorizationRow → Option ℕ → Option ProjectAccess
row_access row none = none
row_access row (some uid) =
    if not (opt_is row.user_status "active")
    then none
    else if opt_is row.platform_role "super_admin"
    then some (access_for_role row.project_id owner (row.owner_uid == uid) true)
    else if row.owner_uid == uid
    then some (access_for_role row.project_id owner true false)
    else member_access row.project_id row.member_role

resolve_access_from_row : Option ProjectAuthorizationRow → Option ProjectAccess
unfolding row_access member_access access_for_role
resolve_access_from_row none = none
resolve_access_from_row (some row) = row_access row row.user_uid

abbrev is_platform_user : RequestUser → Bool
is_platform_user (platform_user u) = true
is_platform_user _ = false

resolve_project_access : Database → Option RequestUser → String → Option ProjectAccess
resolve_project_access db none pid = none
resolve_project_access db (some user) pid =
    if not (is_platform_user user)
    then none
    else resolve_access_from_row (load_project_authorization db user pid)

abbrev pub unauthorized : AuthorizationError
unauthorized = record { status_code = 401; code = "UNAUTHORIZED" }

abbrev pub forbidden : AuthorizationError
forbidden = record { status_code = 403; code = "FORBIDDEN" }

abbrev pub not_found : String → AuthorizationError
not_found code = record { status_code = 404; code = code }

abbrev grant : Option ProjectAccess → ProjectCapability → Result AuthorizationError ProjectAccess
grant none c = err forbidden
grant (some access) c = if has_capability access.capabilities c then ok access else err forbidden

assert_row :
    Option ProjectAuthorizationRow → ProjectCapability → Result AuthorizationError ProjectAccess
assert_row none c = err (not_found "PROJECT_NOT_FOUND")
assert_row (some row) c = grant (resolve_access_from_row (some row)) c

unfoldable pub assert_project_capability :
    Database
    → Option RequestUser
    → String
    → ProjectCapability
    → Result AuthorizationError ProjectAccess
unfolding assert_row resolve_access_from_row load_project_authorization
assert_project_capability db (some (platform_user u)) pid c =
    assert_row (load_project_authorization db (platform_user u) pid) c
assert_project_capability db _ pid c = err unauthorized

is_current_super_admin : Option User → Bool
is_current_super_admin none = false
is_current_super_admin (some row) = str_eq row.status "active" && str_eq row.role "super_admin"

unfoldable pub require_current_super_admin :
    Database → Option RequestUser → Result AuthorizationError (Unit {0})
unfolding is_current_super_admin
require_current_super_admin db (some (platform_user u)) =
    guard (is_current_super_admin (find_user db u)) forbidden
require_current_super_admin db _ = err unauthorized
