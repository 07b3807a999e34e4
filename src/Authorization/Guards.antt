-- ===== src/Authorization/Guards.antt =====
-- apps/api/src/lib/project-authorization.ts: the route guards, and the project of a schema. A guard
-- lets the request go on with the access that it found, or sends a reply.
pub mod Schema
mod Examples
use druvia.Prelude.{
  ℕ, zero, suc, String, str_eq, Bool, true, false, Option, none, some, List, [], ◌∷◌, ◌++◌, map,
  select, if◌then◌else◌, includes, Result, ok, err, is_some, not, ◌||◌, ◌>>=◌,
}
use druvia.Authorization.{
  RequestUser, platform_user, ProjectCapability, ProjectAccess, TenantAccess, AuthorizationError,
  Database, assert_project_capability, require_current_super_admin,
}
use druvia.Authorization.Workspace.{assert_tenant_access}

pub data Guarded {ℓ} (A : Type ℓ) : Type ℓ where
  pass : A → Guarded A
  reply : ℕ → String → Guarded A

abbrev from_result {ℓ} : {A : Type ℓ} → Result AuthorizationError A → Guarded A
from_result (ok a) = pass a
from_result (err e) = reply e.status_code e.code

-- `if (!projectId)`: a missing or an empty route parameter.
abbrev pub is_missing : Option String → Bool
is_missing none = true
is_missing (some s) = str_eq s ""

project_guard :
    Database → Option RequestUser → ProjectCapability → Option String → Guarded ProjectAccess
project_guard db user c none = reply 400 "BAD_REQUEST"
project_guard db user c (some pid) =
    if str_eq pid ""
    then reply 400 "BAD_REQUEST"
    else from_result (assert_project_capability db user pid c)

-- SELECT DISTINCT: one row for each value.
distinct : List String → List String
distinct [] = []
distinct (x ∷ xs) = let rest = distinct xs in if includes rest x then rest else x ∷ rest

limit : ℕ → List String → List String
limit zero xs = []
limit (suc n) [] = []
limit (suc n) (x ∷ xs) = x ∷ limit n xs

only_row : List String → Option String
only_row (x ∷ []) = some x
only_row _ = none

-- The UNION ALL of the projects' and the environments' schemas.
pub schema_project_ids : Database → String → List String
schema_project_ids db name =
    map (λ p. p.project_id) (select (λ p. str_eq p.schema_name name) db.projects)
    ++ map (λ e. e.project_id) (select (λ e. str_eq e.schema_name name) db.environments)

-- The order of the rows is left out: it decides nothing where a single row is used.
pub resolve_schema_project : Database → String → Option String
unfolding distinct limit only_row
resolve_schema_project db name = only_row (limit 2 (distinct (schema_project_ids db name)))

-- `params.schema ?? params.schemaName`
abbrev pub schema_param : Option String → Option String → Option String
schema_param none schema_name = schema_name
schema_param (some s) schema_name = some s

schema_resolved :
    Database → Option RequestUser → ProjectCapability → Option String → Guarded ProjectAccess
schema_resolved db user c none = reply 404 "PROJECT_NOT_FOUND"
schema_resolved db user c (some pid) =
    if str_eq pid ""
    then reply 404 "PROJECT_NOT_FOUND"
    else from_result (assert_project_capability db user pid c)

schema_named :
    Database → Option RequestUser → ProjectCapability → Option String → Guarded ProjectAccess
schema_named db user c none = reply 400 "BAD_REQUEST"
schema_named db user c (some name) =
    if str_eq name ""
    then reply 400 "BAD_REQUEST"
    else schema_resolved db user c (resolve_schema_project db name)

pub schema_guard :
    Database
    → Option RequestUser
    → ProjectCapability
    → Option String
    → Option String
    → Guarded ProjectAccess
unfolding schema_named schema_resolved
schema_guard db user c schema schema_name = schema_named db user c (schema_param schema schema_name)

-- request.user.role = 'super_admin'
with_super_admin_role : Option RequestUser → Option RequestUser
with_super_admin_role (some (platform_user u)) =
    some (platform_user (record u { role = some "super_admin" }))
with_super_admin_role user = user

-- The request goes on with the user that is noted to be a super administrator.
pub require_super_admin : Database → Option RequestUser → Guarded (Option RequestUser)
require_super_admin db user =
    from_result (require_current_super_admin db user >>= λ _. ok (with_super_admin_role user))

pub tenant_guard : Database → Option RequestUser → Bool → Option String → Guarded TenantAccess
tenant_guard db user owner_only none = reply 400 "BAD_REQUEST"
tenant_guard db user owner_only (some tid) =
    if str_eq tid ""
    then reply 400 "BAD_REQUEST"
    else from_result (assert_tenant_access db user tid owner_only)
