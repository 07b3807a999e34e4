-- ===== src/Authorization/Decision.antt =====
-- When `assertProjectCapability` accepts, against an independent description of who holds a role in
-- a project.
use druvia.Prelude.{
  String, str_eq, eq_iff, ◌≡◌, refl, ◌↔◌, inl, inr, true, Option, none, some, List, [], ◌∷◌, ok,
  is_ok, Bool-cases, Option-cases, ◌==◌, arith, find,
}
use druvia.Authorization.{
  RequestUser, PlatformJwtUser, platform_user, ProjectEffectiveRole, owner, member, ProjectMember,
  ProjectCapability, ProjectAccess, Project, Tenant, User, Database, role_capabilities,
  has_capability, find_project, find_tenant, find_user, find_member, assert_project_capability,
}

-- `u` is an active user of the database and holds the role in the project: as a super
-- administrator, as the owner of the project's workspace, or as a member.
pub data Holds (db : Database) (u : PlatformJwtUser) (p : Project)
    : ProjectEffectiveRole → Type 0 where
  as_super_admin :
      {row : User}
      → find_user db u ≡ some row
      → row.status ≡ "active"
      → row.role ≡ "super_admin"
      → Holds db u p owner
  as_workspace_owner :
      {row : User} {t : Tenant}
      → find_user db u ≡ some row
      → row.status ≡ "active"
      → find_tenant db p.tenant_id ≡ some t
      → t.owner_uid ≡ row.id
      → Holds db u p owner
  as_member :
      {row : User} {m : ProjectMember}
      → find_user db u ≡ some row
      → row.status ≡ "active"
      → find_member db p.project_id (some row) ≡ some m
      → Holds db u p (member m.role)

-- The owner's list names every capability.
pub owner_has_all : (c : ProjectCapability) → has_capability (role_capabilities owner) c ≡ true
unfolding has_capability
owner_has_all ProjectCapability.project_read = refl
owner_has_all _ = refl

module _ (db : Database) (u : PlatformJwtUser) (pid : String) (p : Project) (t : Tenant)
    (c : ProjectCapability) (found : find_project db pid ≡ some p)
    (tenant : find_tenant db p.tenant_id ≡ some t) where
  decision_sound :
      is_ok (assert_project_capability db (some (platform_user u)) pid c) ≡ true
      → (r : ProjectEffectiveRole) × Holds db u p r
        × (has_capability (role_capabilities r) c ≡ true)
  unfolding assert_project_capability
  decision_sound h = elim (Option-cases (find_user db u)) [
    | inl none_found ↦ absurd (ground arith)
    | inr (row, user) ↦
        let active : row.status ≡ "active" = ground (arith, eq_iff row.status "active") in
        elim (Bool-cases (str_eq row.role "super_admin")) [
          | inl super ↦ (owner, as_super_admin user active ((eq_iff _ _).0 super), owner_has_all c)
          | inr plain ↦ elim (Bool-cases (t.owner_uid == row.id)) [
            | inl owns ↦
                (owner, as_workspace_owner user active tenant (ground arith), owner_has_all c)
            | inr other ↦ elim (Option-cases (find_member db p.project_id (some row))) [
              | inl no_member ↦ absurd (ground arith)
              | inr (m, joined) ↦ (member m.role, as_member user active joined, ground arith)
            ]
          ]
        ]
  ]

  decision_complete :
      (r : ProjectEffectiveRole)
      → Holds db u p r
      → has_capability (role_capabilities r) c ≡ true
      → is_ok (assert_project_capability db (some (platform_user u)) pid c) ≡ true
  unfolding assert_project_capability
  decision_complete r (as_super_admin {row} user active super) h =
      ground (arith, eq_iff row.status "active", eq_iff row.role "super_admin", owner_has_all c)
  decision_complete r (as_workspace_owner {row} {t = t'} user active joined owns) h =
      ground (arith, eq_iff row.status "active", owner_has_all c)
  decision_complete r (as_member {row} {m} user active joined) h =
      ground (arith, eq_iff row.status "active", owner_has_all c)

  -- In a project with its workspace, the check of a capability passes exactly when the user holds
  -- a role there whose capabilities include it.
  pub assert_project_capability_iff :
      (is_ok (assert_project_capability db (some (platform_user u)) pid c) ≡ true) ↔ (
        (r : ProjectEffectiveRole) × Holds db u p r
        × (has_capability (role_capabilities r) c ≡ true))
  assert_project_capability_iff = (decision_sound, λ (r, held, has). decision_complete r held has)

find_project-id :
    (ps : List Project) (pid : String) (p : Project)
    → find (λ q. str_eq q.project_id pid) ps ≡ some p
    → p.project_id ≡ pid
find_project-id [] pid p h = cc
find_project-id (q ∷ ps) pid p h = ground (arith, find_project-id ps pid p, eq_iff q.project_id pid)

granted_in :
    (db : Database) (u : PlatformJwtUser) (pid : String) (c : ProjectCapability)
    (access : ProjectAccess)
    → assert_project_capability db (some (platform_user u)) pid c ≡ ok access
    → (access.project_id ≡ pid) × (has_capability access.capabilities c ≡ true)
unfolding assert_project_capability
granted_in db u pid c access h = elim (Option-cases (find_project db pid)) [
  | inl missing ↦ absurd (ground arith)
  | inr (p, found) ↦
      let same : p.project_id ≡ pid =
        find_project-id db.projects pid p (unfold find_project in found) in
      elim (Option-cases (find_tenant db p.tenant_id)) [
        | inl missing ↦ absurd (ground arith)
        | inr (t, tenant) ↦ (ground arith, ground arith)
      ]
]

-- The access that the check returns is that of the project asked for, and it has the capability.
pub assert_project_capability-ok :
    (db : Database) (user : Option RequestUser) (pid : String) (c : ProjectCapability)
    (access : ProjectAccess)
    → assert_project_capability db user pid c ≡ ok access
    → (access.project_id ≡ pid) × (has_capability access.capabilities c ≡ true)
assert_project_capability-ok db none pid c access h = unfold assert_project_capability in cc
assert_project_capability-ok db (some (platform_user u)) pid c access h =
    granted_in db u pid c access h
assert_project_capability-ok db (some other) pid c access h = unfold assert_project_capability in cc
