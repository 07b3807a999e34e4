-- ===== src/Authorization/Guards/Examples.antt =====
-- The schema guard of project-authorization.ts, on an example.
use druvia.Prelude.{◌≡◌, refl, String, true, some, none, includes, All}
use druvia.Authorization.{
  platform_user, member, viewer, database_read, role_capabilities, has_capability,
}
use druvia.Authorization.Examples.{database, guest, guest_access, guest_reads}
use druvia.Authorization.Guards.{
  pass, distinct, limit, only_row, schema_project_ids, resolve_schema_project, schema_named,
  schema_resolved, schema_guard,
}
use druvia.Authorization.Guards.Schema.{Names, resolve_schema_project_unique, schema_guard-pass}

found : resolve_schema_project database "shop_dev" ≡ some "p1"
unfolding resolve_schema_project distinct limit only_row schema_project_ids
found = refl

resolve_schema_project_unique_example :
    (includes (schema_project_ids database "shop_dev") "p1" ≡ true)
    × All (λ s. s ≡ "p1") (schema_project_ids database "shop_dev")
resolve_schema_project_unique_example = resolve_schema_project_unique database "shop_dev" "p1" found

passed :
    schema_guard database (some (platform_user guest)) database_read none (some "shop_dev")
    ≡ pass guest_access
unfolding schema_guard schema_named schema_resolved
passed = rw (found, guest_reads) refl

schema_guard-pass_example :
    (name : String) × Names name none (some "shop_dev")
    × (includes (schema_project_ids database name) "p1" ≡ true)
    × All (λ s. s ≡ "p1") (schema_project_ids database name)
    × (has_capability (role_capabilities (member viewer)) database_read ≡ true)
schema_guard-pass_example =
    schema_guard-pass database (some (platform_user guest)) database_read none (some "shop_dev")
      guest_access passed
