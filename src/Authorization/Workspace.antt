-- ===== src/Authorization/Workspace.antt =====
-- apps/api/src/lib/project-authorization.ts: access to a workspace, and the projects that a user is
-- shown there.
pub mod Listing
pub mod Visibility
mod Examples
use mathlib.Core.Option
use druvia.Prelude.{
  ℕ, ◌==◌, String, str_eq, opt_is, is_some, if◌then◌else◌, Bool, true, false, ◌&&◌, ◌||◌, not,
  Option, none, some, List, [], ◌∷◌, ◌++◌, map, any, find, select, includes, Result, ok, err,
}
use druvia.Authorization.{
  ProjectMemberRole, project_admin, database_admin, viewer, member, ProjectCapability, TenantAccess,
  TenantAuthorizationRow, AuthorizationError, Database, Project, ProjectMember, Tenant, User,
  PlatformJwtUser, RequestUser, platform_user, find_tenant, find_user, find_member, has_capability,
  role_capabilities, unauthorized, forbidden, not_found,
}

-- EXISTS (… p JOIN pm … WHERE p.tenant_id = t.tenant_id AND pm.user_uid = u.id)
has_membership : Database → String → Option User → Bool
has_membership db tid none = false
has_membership db tid (some u) =
    any
      (λ p.
        str_eq p.tenant_id tid
        && any (λ m. str_eq m.project_id p.project_id && m.user_uid == u.id) db.members)
      db.projects

tenant_row : Database → PlatformJwtUser → Tenant → TenantAuthorizationRow
tenant_row db u t = record {
  tenant_id = t.tenant_id;
  user_uid = Option.map (λ r. r.id) (find_user db u);
  user_status = Option.map (λ r. r.status) (find_user db u);
  platform_role = Option.map (λ r. r.role) (find_user db u);
  owner_uid = t.owner_uid;
  has_project_membership = has_membership db t.tenant_id (find_user db u);
}

tenant_access_of :
    String → Bool → Bool → TenantAuthorizationRow → Result AuthorizationError TenantAccess
tenant_access_of tid owner_only workspace_owner row =
    let super_admin = opt_is row.platform_role "super_admin" in
    if (not super_admin && not workspace_owner && not row.has_project_membership)
      || (owner_only && not super_admin && not workspace_owner)
    then err forbidden
    else ok (record {
      tenant_id = tid;
      is_workspace_owner = workspace_owner;
      is_super_admin = super_admin;
    })

tenant_user_check :
    String → Bool → TenantAuthorizationRow → Option ℕ → Result AuthorizationError TenantAccess
tenant_user_check tid owner_only row none = err forbidden
tenant_user_check tid owner_only row (some uid) =
    if not (opt_is row.user_status "active")
    then err forbidden
    else tenant_access_of tid owner_only (row.owner_uid == uid) row

tenant_check :
    String → Bool → Option TenantAuthorizationRow → Result AuthorizationError TenantAccess
tenant_check tid owner_only none = err (not_found "TENANT_NOT_FOUND")
tenant_check tid owner_only (some row) = tenant_user_check tid owner_only row row.user_uid

pub assert_tenant_access :
    Database → Option RequestUser → String → Bool → Result AuthorizationError TenantAccess
unfolding tenant_check tenant_user_check tenant_access_of tenant_row
assert_tenant_access db (some (platform_user u)) tid owner_only =
    tenant_check tid owner_only (Option.map (tenant_row db u) (find_tenant db tid))
assert_tenant_access db _ tid owner_only = err unauthorized

-- The roles of members whose capabilities include the one asked for.
member_roles : ProjectCapability → List ProjectMemberRole
member_roles c =
    select (λ r. has_capability (role_capabilities (member r)) c)
      (project_admin ∷ database_admin ∷ viewer ∷ [])

abbrev pub role_index : ProjectMemberRole → ℕ
role_index project_admin = 0
role_index database_admin = 1
role_index viewer = 2

-- pm.role = ANY($4), which is null and not true where no member row was joined.
role_listed : List ProjectMemberRole → Option ProjectMember → Bool
role_listed roles none = false
role_listed roles (some m) = any (λ r. role_index r == role_index m.role) roles

-- WHERE of `listAccessibleProjectIds`, for a project that is joined with its tenant.
listed_for : Database → List ProjectMemberRole → User → Project → Option Tenant → Bool
listed_for db roles u p none = false
listed_for db roles u p (some t) =
    str_eq u.role "super_admin"
    || (t.owner_uid == u.id || role_listed roles (find_member db p.project_id (some u)))

list_for_user : Database → Option User → String → List ProjectMemberRole → List Project
list_for_user db none tid roles = []
list_for_user db (some u) tid roles =
    select
      (λ p.
        str_eq p.tenant_id tid
        && (str_eq u.status "active" && listed_for db roles u p (find_tenant db p.tenant_id)))
      db.projects

pub list_accessible_project_ids :
    Database
    → Option RequestUser
    → String
    → ProjectCapability
    → Result AuthorizationError (List String)
unfolding list_for_user listed_for role_listed member_roles
list_accessible_project_ids db (some (platform_user u)) tid c =
    ok (map (λ p. p.project_id) (list_for_user db (find_user db u) tid (member_roles c)))
list_accessible_project_ids db _ tid c = err unauthorized
