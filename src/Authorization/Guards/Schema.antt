-- ===== src/Authorization/Guards/Schema.antt =====
-- A request that passes the schema guard works on the one project that the schema belongs to.
use druvia.Prelude.{
  String, eq_iff, str_eq_self, ◌≡◌, refl, sym, ◌∙◌, inl, inr, true, Option, none, some, List, [],
  ◌∷◌, includes, All, ok, Option-cases, arith,
}
use druvia.Authorization.{
  RequestUser, ProjectCapability, ProjectAccess, Database, assert_project_capability,
  has_capability,
}
use druvia.Authorization.Decision.{assert_project_capability-ok}
use druvia.Authorization.Guards.{
  pass, distinct, limit, only_row, schema_project_ids, resolve_schema_project, schema_guard,
  schema_named, schema_resolved,
}

includes-distinct : (xs : List String) (s : String) → includes (distinct xs) s ≡ includes xs s
unfolding distinct
includes-distinct [] s = refl
includes-distinct (x ∷ xs) s =
    ground (arith, includes-distinct xs s, includes-distinct xs x, eq_iff x s)

only_row-limit : (xs : List String) (x : String) → only_row (limit 2 xs) ≡ some x → xs ≡ x ∷ []
unfolding only_row limit
only_row-limit [] x h = cc
only_row-limit (a ∷ []) x h = ground arith
only_row-limit (a ∷ b ∷ xs) x h = ground arith

only_value :
    (xs : List String) (v : String)
    → ((s : String) → includes xs s ≡ true → s ≡ v)
    → All (λ s. s ≡ v) xs
only_value [] v h = tt
only_value (x ∷ xs) v h =
    (h x (rw (str_eq_self x) refl), only_value xs v (λ s found. h s (ground (arith, found))))

-- A schema is resolved only to the project of every project and environment that carries its name.
pub resolve_schema_project_unique :
    (db : Database) (name pid : String)
    → resolve_schema_project db name ≡ some pid
    → (includes (schema_project_ids db name) pid ≡ true)
      × All (λ s. s ≡ pid) (schema_project_ids db name)
unfolding resolve_schema_project
resolve_schema_project_unique db name pid h =
    let one = only_row-limit (distinct (schema_project_ids db name)) pid h in
    (
      (sym (includes-distinct _ pid)) ∙ rw one (rw (str_eq_self pid) refl),
      only_value _ pid λ s found.
          ground (arith, one, includes-distinct (schema_project_ids db name) s, eq_iff pid s),
    )

-- The parameter that a request names its schema with: `schema`, or `schemaName` where there is no
-- `schema`.
pub data Names (name : String) : Option String → Option String → Type 0 where
  by_schema : {schema_name : Option String} → Names name (some name) schema_name
  by_schema_name : Names name none (some name)

-- What a pass of the guard for a named schema went through.
schema_named-pass :
    (db : Database) (user : Option RequestUser) (c : ProjectCapability) (name : String)
    (access : ProjectAccess)
    → schema_named db user c (some name) ≡ pass access
    → (includes (schema_project_ids db name) access.project_id ≡ true)
      × All (λ s. s ≡ access.project_id) (schema_project_ids db name)
      × (has_capability access.capabilities c ≡ true)
unfolding schema_named schema_resolved
schema_named-pass db user c name access h = elim (Option-cases (resolve_schema_project db name)) [
  | inl unknown ↦ absurd (ground arith)
  | inr (pid, known) ↦
      let (listed, only) = resolve_schema_project_unique db name pid known in
      let passed : assert_project_capability db user pid c ≡ ok access = ground arith in
      let (same, has) = assert_project_capability-ok db user pid c access passed in
      (rw same listed, rw same only, has)
]

-- A request that passes the schema guard names a schema, by `schema` or, without that, by
-- `schemaName`; it has the access of a project that the schema belongs to, no other project has a
-- schema or an environment of that name, and the capability is among those of the access.
pub schema_guard-pass :
    (db : Database) (user : Option RequestUser) (c : ProjectCapability)
    (schema schema_name : Option String) (access : ProjectAccess)
    → schema_guard db user c schema schema_name ≡ pass access
    → (name : String) × Names name schema schema_name
      × (includes (schema_project_ids db name) access.project_id ≡ true)
      × All (λ s. s ≡ access.project_id) (schema_project_ids db name)
      × (has_capability access.capabilities c ≡ true)
unfolding schema_guard schema_named
schema_guard-pass db user c (some name) schema_name access h =
    let (listed, only, has) = schema_named-pass db user c name access h in
    (name, by_schema, listed, only, has)
schema_guard-pass db user c none (some name) access h =
    let (listed, only, has) = schema_named-pass db user c name access h in
    (name, by_schema_name, listed, only, has)
schema_guard-pass db user c none none access h = cc
