-- ===== src/Authorization/Tables.antt =====
-- The data of project-authorization.ts: identities, roles, capabilities, and the database tables
-- that its statements read. A table is a list of rows, a key column is read by `find`.
use druvia.Prelude.{ℕ, String, Bool, Option, List}

-- middleware/auth.ts: who a request comes from.
pub record PlatformJwtUser : Type 0 where
  pub user_id : String
  pub uid : ℕ
  pub tenant_id : Option String
  pub role : Option String

pub record ProjectJwtUser : Type 0 where
  pub sub : String
  pub project_id : String
  pub provider : String

pub record ApiKeyIdentity : Type 0 where
  pub project_id : String
  pub api_key_id : ℕ
  pub api_key_prefix : String

pub data RequestUser : Type 0 where
  platform_user : PlatformJwtUser → RequestUser
  project_user : ProjectJwtUser → RequestUser
  apikey : ApiKeyIdentity → RequestUser

pub data ProjectMemberRole : Type 0 where
  project_admin database_admin viewer : ProjectMemberRole

pub data ProjectEffectiveRole : Type 0 where
  owner : ProjectEffectiveRole
  member : ProjectMemberRole → ProjectEffectiveRole

pub data ProjectCapability : Type 0 where
  project_read project_update runtime_context_manage project_delete : ProjectCapability
  members_read members_manage : ProjectCapability
  database_read database_write database_credentials : ProjectCapability
  data_access_manage auth_manage api_keys_manage trusted_keys_manage : ProjectCapability
  storage_manage functions_manage realtime_manage environments_manage : ProjectCapability
  backups_read backups_create backups_restore : ProjectCapability

abbrev pub capability_index : ProjectCapability → ℕ
capability_index project_read = 0
capability_index project_update = 1
capability_index runtime_context_manage = 2
capability_index project_delete = 3
capability_index members_read = 4
capability_index members_manage = 5
capability_index database_read = 6
capability_index database_write = 7
capability_index database_credentials = 8
capability_index data_access_manage = 9
capability_index auth_manage = 10
capability_index api_keys_manage = 11
capability_index trusted_keys_manage = 12
capability_index storage_manage = 13
capability_index functions_manage = 14
capability_index realtime_manage = 15
capability_index environments_manage = 16
capability_index backups_read = 17
capability_index backups_create = 18
capability_index backups_restore = 19

pub record ProjectAccess : Type 0 where
  pub project_id : String
  pub role : ProjectEffectiveRole
  pub capabilities : List ProjectCapability
  pub is_workspace_owner : Bool
  pub is_super_admin : Bool

pub record TenantAccess : Type 0 where
  pub tenant_id : String
  pub is_workspace_owner : Bool
  pub is_super_admin : Bool

pub record AuthorizationError : Type 0 where
  pub status_code : ℕ
  pub code : String

-- druvia_projects, druvia_tenants, druvia_users, druvia_project_members and
-- druvia_project_environments, as far as the statements read them.
pub record Project : Type 0 where
  pub project_id : String
  pub tenant_id : String
  pub schema_name : String

pub record Tenant : Type 0 where
  pub tenant_id : String
  pub owner_uid : ℕ

pub record User : Type 0 where
  pub id : ℕ
  pub user_id : String
  pub status : String
  pub role : String

pub record ProjectMember : Type 0 where
  pub project_id : String
  pub user_uid : ℕ
  pub role : ProjectMemberRole

pub record ProjectEnvironment : Type 0 where
  pub project_id : String
  pub schema_name : String

-- `projects` is held newest first, the order of the listing.
pub record Database : Type 0 where
  pub projects : List Project
  pub tenants : List Tenant
  pub users : List User
  pub members : List ProjectMember
  pub environments : List ProjectEnvironment

pub record ProjectAuthorizationRow : Type 0 where
  pub project_id : String
  pub user_uid : Option ℕ
  pub user_status : Option String
  pub platform_role : Option String
  pub owner_uid : ℕ
  pub member_role : Option ProjectMemberRole

pub record TenantAuthorizationRow : Type 0 where
  pub tenant_id : String
  pub user_uid : Option ℕ
  pub user_status : Option String
  pub platform_role : Option String
  pub owner_uid : ℕ
  pub has_project_membership : Bool
