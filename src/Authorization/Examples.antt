-- ===== src/Authorization/Examples.antt =====
-- A workspace with two projects, and the checks of project-authorization.ts on it.
use druvia.Prelude.{◌≡◌, refl, ◌↔◌, true, false, none, some, [], ◌∷◌, ok, is_ok}
use druvia.Authorization.{
  PlatformJwtUser, platform_user, Project, Tenant, viewer, member, Database, ProjectAccess,
  ProjectEffectiveRole, database_read, role_capabilities, has_capability, find_project, find_tenant,
  find_user, find_member, assert_project_capability, assert_row, load_for_project, access_for_role,
  resolve_access_from_row, row_access, member_access, authorization_row, load_project_authorization,
}
use druvia.Authorization.Decision.{
  Holds, assert_project_capability_iff, assert_project_capability-ok,
}

abbrev pub shop : Project
shop = record { project_id = "p1"; tenant_id = "t1"; schema_name = "shop" }

abbrev pub blog : Project
blog = record { project_id = "p2"; tenant_id = "t1"; schema_name = "blog" }

abbrev pub workspace : Tenant
workspace = record { tenant_id = "t1"; owner_uid = 1 }

abbrev pub database : Database
database = record {
  projects = shop ∷ blog ∷ [];
  tenants = workspace ∷ [];
  users =
      record { id = 1; user_id = "u1"; status = "active"; role = "user" }
      ∷ record { id = 2; user_id = "u2"; status = "active"; role = "user" }
      ∷ [];
  members = record { project_id = "p1"; user_uid = 2; role = viewer } ∷ [];
  environments = record { project_id = "p1"; schema_name = "shop_dev" } ∷ [];
}

abbrev pub guest : PlatformJwtUser
guest = record { user_id = "u2"; uid = 2; tenant_id = none; role = none }

abbrev pub guest_access : ProjectAccess
guest_access = record {
  project_id = "p1";
  role = member viewer;
  capabilities = role_capabilities (member viewer);
  is_workspace_owner = false;
  is_super_admin = false;
}

assert_project_capability_iff_example :
    (is_ok (assert_project_capability database (some (platform_user guest)) "p1" database_read)
      ≡ true)
    ↔ ((r : ProjectEffectiveRole) × Holds database guest shop r
        × (has_capability (role_capabilities r) database_read ≡ true))
assert_project_capability_iff_example =
    assert_project_capability_iff database guest "p1" shop workspace database_read
      (unfold find_project in refl) (unfold find_tenant in refl)

pub guest_reads :
    assert_project_capability database (some (platform_user guest)) "p1" database_read
    ≡ ok guest_access
unfolding assert_project_capability assert_row load_for_project access_for_role
    resolve_access_from_row row_access member_access authorization_row load_project_authorization
    find_project find_tenant find_user find_member has_capability
guest_reads = refl

assert_project_capability-ok_example :
    (guest_access.project_id ≡ shop.project_id)
    × (has_capability (role_capabilities (member viewer)) database_read ≡ true)
assert_project_capability-ok_example =
    assert_project_capability-ok database (some (platform_user guest)) "p1" database_read
      guest_access guest_reads
