-- ===== src/Authorization/Workspace/Examples.antt =====
-- The listing of a workspace's projects by project-authorization.ts, on an example.
use druvia.Prelude.{str_eq, ◌≡◌, refl, ◌&&◌, true, false, some, [], ◌∷◌, map, select, ok, is_ok}
use druvia.Authorization.{
  platform_user, database_read, assert_project_capability, find_project, find_tenant, find_user,
  find_member, has_capability,
}
use druvia.Authorization.Examples.{database, guest}
use druvia.Authorization.Workspace.{
  assert_tenant_access, list_accessible_project_ids, list_for_user, listed_for, role_listed,
  member_roles,
}
use druvia.Authorization.Workspace.Listing.{list_accessible_project_ids-eq-checked}
use druvia.Authorization.Workspace.Visibility.{listed-assert_tenant_access}

list_accessible_project_ids-eq-checked_example :
    list_accessible_project_ids database (some (platform_user guest)) "t1" database_read
    ≡ ok (
        map
          (λ p. p.project_id)
          (select
            (λ p.
              str_eq p.tenant_id "t1"
              && is_ok (
                  assert_project_capability database
                    (some (platform_user guest))
                    p.project_id
                    database_read))
            database.projects))
list_accessible_project_ids-eq-checked_example =
    list_accessible_project_ids-eq-checked database guest database_read "t1"
      (unfold find_project in (refl, (refl, tt)))

guest_sees :
    list_accessible_project_ids database (some (platform_user guest)) "t1" database_read
    ≡ ok ("p1" ∷ [])
unfolding list_accessible_project_ids list_for_user listed_for role_listed member_roles find_tenant
    find_user find_member has_capability
guest_sees = refl

listed-assert_tenant_access_example :
    is_ok (assert_tenant_access database (some (platform_user guest)) "t1" false) ≡ true
listed-assert_tenant_access_example =
    listed-assert_tenant_access database (some (platform_user guest)) "t1" database_read "p1" []
      guest_sees
