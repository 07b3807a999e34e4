-- ===== src/Authorization/Workspace/Listing.antt =====
-- The listing of a workspace's projects agrees with the check of a single project, and with the
-- check of the workspace.
use druvia.Prelude.{
  inl, inr, String, str_eq, ◌≡◌, refl, ap, false, ◌&&◌, none, some, List, [], ◌∷◌, map, ok, is_ok,
  Option-cases, arith, select, All, select_congr,
}
use druvia.Authorization.{
  PlatformJwtUser, platform_user, member, ProjectMember, ProjectMemberRole, ProjectCapability,
  Project, User, Database, role_capabilities, has_capability, find_project, find_tenant, find_user,
  find_member, assert_project_capability,
}
use druvia.Authorization.Decision.{owner_has_all}
use druvia.Authorization.Workspace.{
  member_roles, role_listed, listed_for, list_for_user, list_accessible_project_ids,
}

-- A role is among those sent to the database exactly when its capabilities include the one asked.
role_listed-member_roles :
    (c : ProjectCapability) (m : ProjectMember)
    → role_listed (member_roles c) (some m) ≡ has_capability (role_capabilities (member m.role)) c
unfolding role_listed member_roles
role_listed-member_roles c m = ground arith

role_listed-none : (roles : List ProjectMemberRole) → role_listed roles none ≡ false
unfolding role_listed
role_listed-none roles = refl

module _ (db : Database) (u : PlatformJwtUser) (c : ProjectCapability) where
  listed_for-assert :
      (p : Project) (row : User)
      → find_project db p.project_id ≡ some p
      → find_user db u ≡ some row
      → (str_eq row.status "active"
          && listed_for db (member_roles c) row p (find_tenant db p.tenant_id))
        ≡ is_ok (assert_project_capability db (some (platform_user u)) p.project_id c)
  unfolding assert_project_capability listed_for
  listed_for-assert p row found user = elim (Option-cases (find_tenant db p.tenant_id)) [
    | inl none_found ↦ ground arith
    | inr (t, tenant) ↦ elim (Option-cases (find_member db p.project_id (some row))) [
      | inl no_member ↦ ground (arith, owner_has_all c, role_listed-none (member_roles c))
      | inr (m, joined) ↦ ground (arith, owner_has_all c, role_listed-member_roles c m)
    ]
  ]

  listed_tests :
      (tid : String) (row : User) (ps : List Project)
      → find_user db u ≡ some row
      → All (λ p. find_project db p.project_id ≡ some p) ps
      → All
          (λ p.
            (str_eq p.tenant_id tid
              && (str_eq row.status "active"
                  && listed_for db (member_roles c) row p (find_tenant db p.tenant_id)))
            ≡ (str_eq p.tenant_id tid
                && is_ok (assert_project_capability db (some (platform_user u)) p.project_id c)))
          ps
  listed_tests tid row [] user h = tt
  listed_tests tid row (p ∷ ps) user (found, h) = (
    ap (λ b. str_eq p.tenant_id tid && b) (listed_for-assert p row found user),
    listed_tests tid row ps user h,
  )

  refused :
      (pid : String)
      → find_user db u ≡ none
      → is_ok (assert_project_capability db (some (platform_user u)) pid c) ≡ false
  unfolding assert_project_capability
  refused pid missing = ground arith

  select_none :
      (tid : String) (ps : List Project)
      → find_user db u ≡ none
      → select
          (λ p.
            str_eq p.tenant_id tid
            && is_ok (assert_project_capability db (some (platform_user u)) p.project_id c))
          ps
        ≡ []
  select_none tid [] missing = refl
  select_none tid (p ∷ ps) missing =
      ground (arith, select_none tid ps missing, refused p.project_id missing)

  -- Where project ids are unique, the listing of a workspace for a capability is exactly the
  -- workspace's projects, in the table's order, for which the check of that capability passes.
  pub list_accessible_project_ids-eq-checked :
      (tid : String)
      → All (λ p. find_project db p.project_id ≡ some p) db.projects
      → list_accessible_project_ids db (some (platform_user u)) tid c
        ≡ ok (
            map
              (λ p. p.project_id)
              (select
                (λ p.
                  str_eq p.tenant_id tid
                  && is_ok (assert_project_capability db (some (platform_user u)) p.project_id c))
                db.projects))
  unfolding list_accessible_project_ids
  list_accessible_project_ids-eq-checked tid keys = elim (Option-cases (find_user db u)) [
    | inl missing ↦ rw (missing, list_for_user) (rw (select_none tid db.projects missing) refl)
    | inr (row, user) ↦
        rw (user, list_for_user)
          (ap (λ ps. ok (map (λ p. p.project_id) ps))
            (select_congr _ _ db.projects (listed_tests tid row db.projects user keys)))
  ]
