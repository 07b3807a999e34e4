-- ===== src/Authorization/Workspace/Visibility.antt =====
-- Whoever is shown a project of a workspace may enter the workspace.
use druvia.Prelude.{
  inl, inr, String, str_eq, eq_iff, ◌≡◌, refl, Bool, true, false, Option, none, some, List, [], ◌∷◌,
  map, ok, is_ok, Option-cases, arith, select, any, find,
}
use druvia.Authorization.{
  PlatformJwtUser, platform_user, RequestUser, ProjectMember, ProjectMemberRole, ProjectCapability,
  Project, Tenant, User, Database, find_tenant, find_user, find_member,
}
use druvia.Authorization.Workspace.{
  member_roles, role_listed, listed_for, list_for_user, list_accessible_project_ids,
  assert_tenant_access, has_membership,
}

module _ {ℓ} {A : Type ℓ} (p : A → Bool) where
  select-head : (xs : List A) (y : A) (ys : List A) → select p xs ≡ y ∷ ys → p y ≡ true
  select-head [] y ys h = cc
  select-head (x ∷ xs) y ys h = ground (arith, select-head xs y ys)

  any-head :
      (q : A → Bool) (xs : List A) (y : A) (ys : List A)
      → select p xs ≡ y ∷ ys
      → q y ≡ true
      → any q xs ≡ true
  any-head q [] y ys h qy = cc
  any-head q (x ∷ xs) y ys h qy = ground (arith, any-head q xs y ys)

  any-find : (xs : List A) (y : A) → find p xs ≡ some y → any p xs ≡ true
  any-find [] y h = cc
  any-find (x ∷ xs) y h = ground (arith, any-find xs y)

role_listed-none : (roles : List ProjectMemberRole) → role_listed roles none ≡ false
unfolding role_listed
role_listed-none roles = refl

find_tenant-id :
    (ts : List Tenant) (tid : String) (t : Tenant)
    → find (λ r. str_eq r.tenant_id tid) ts ≡ some t
    → t.tenant_id ≡ tid
find_tenant-id [] tid t h = cc
find_tenant-id (r ∷ ts) tid t h = ground (arith, find_tenant-id ts tid t, eq_iff r.tenant_id tid)

module _ (db : Database) (u : PlatformJwtUser) (row : User) (tid : String) where
  -- A member of a project is a member of its workspace.
  membership :
      (test : Project → Bool) (p : Project) (ps : List Project) (m : ProjectMember)
      → select test db.projects ≡ p ∷ ps
      → str_eq p.tenant_id tid ≡ true
      → find_member db p.project_id (some row) ≡ some m
      → has_membership db tid (some row) ≡ true
  unfolding has_membership find_member
  membership test p ps m chosen here joined =
      any-head test _ db.projects p ps chosen (rw (here, any-find _ db.members m joined) refl)

  entered :
      (c : ProjectCapability) (p : Project) (ps : List Project)
      → find_user db u ≡ some row
      → list_for_user db (some row) tid (member_roles c) ≡ p ∷ ps
      → is_ok (assert_tenant_access db (some (platform_user u)) tid false) ≡ true
  unfolding assert_tenant_access list_for_user listed_for
  entered c p ps user chosen =
      let passed = select-head _ db.projects p ps chosen in
      let same : p.tenant_id ≡ tid = ground (arith, eq_iff p.tenant_id tid) in
      elim (Option-cases (find_tenant db tid)) [
        | inl missing ↦ absurd (ground arith)
        | inr (t, tenant) ↦
            let named = find_tenant-id db.tenants tid t (unfold find_tenant in tenant) in
            elim (Option-cases (find_member db p.project_id (some row))) [
              | inl no_member ↦ ground (arith, role_listed-none (member_roles c))
              | inr (m, joined) ↦ ground (arith, membership _ p ps m chosen)
            ]
      ]

map_cons :
    (ps : List Project) (x : String) (xs : List String)
    → map (λ p. p.project_id) ps ≡ x ∷ xs
    → (p : Project) × (rest : List Project) × (ps ≡ p ∷ rest)
map_cons [] x xs h = cc
map_cons (p ∷ ps) x xs h = (p, ps, refl)

shown :
    (db : Database) (u : PlatformJwtUser) (found : Option User) (tid : String)
    (c : ProjectCapability) (x : String) (xs : List String)
    → find_user db u ≡ found
    → map (λ p. p.project_id) (list_for_user db found tid (member_roles c)) ≡ x ∷ xs
    → is_ok (assert_tenant_access db (some (platform_user u)) tid false) ≡ true
shown db u none tid c x xs user h = unfold list_for_user in cc
shown db u (some row) tid c x xs user h =
    let (p, rest, chosen) = map_cons (list_for_user db (some row) tid (member_roles c)) x xs h in
    entered db u row tid c p rest user chosen

-- A user who is shown a project of a workspace, for any capability, passes the check of access to
-- that workspace.
pub listed-assert_tenant_access :
    (db : Database) (user : Option RequestUser) (tid : String) (c : ProjectCapability) (x : String)
    (xs : List String)
    → list_accessible_project_ids db user tid c ≡ ok (x ∷ xs)
    → is_ok (assert_tenant_access db user tid false) ≡ true
unfolding list_accessible_project_ids
listed-assert_tenant_access db none tid c x xs h = cc
listed-assert_tenant_access db (some (platform_user u)) tid c x xs h =
    shown db u (find_user db u) tid c x xs refl (ground arith)
listed-assert_tenant_access db (some other) tid c x xs h = cc
