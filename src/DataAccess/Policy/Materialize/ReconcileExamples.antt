-- ===== src/DataAccess/Policy/Materialize/ReconcileExamples.antt =====
-- A table of data-access-policy.ts whose rows are the caller's own, after a column of it was dropped and
-- another one added: what previewPolicyReconcile makes of it.
use mathlib.Core.Option.{Option, some}
use druvia.Prelude.{
  String, str_eq, eq_iff, arith, ◌≡◌, ◌≢◌, refl, true, false, ◌||◌, not, List, [], ◌∷◌, ok, Returns,
}
use druvia.DataAccess.Types.{
  AuthenticatedAccessMode, owner, DataAccessOperation, select, update, TableDataAccessInput,
  DataAccessColumnCapabilities, DataAccessColumnGrants, DataAccessRoleNames,
  MaterializedDataPermission, owner_is_user, selecting, updating,
}
use druvia.DataAccess.Policy.{
  validate_table_data_access_input, validate_modes, validate_constraint, version_of, validate_owner,
  validate_owner_column, uses_owner_mode, validate_grant_columns, has_duplicate, sort,
  insert_sorted, str_leb,
}
use druvia.DataAccess.Policy.Materialize.{
  materialize_table_data_access_policy, authenticated_permissions, permission_for,
  create_authenticated_permission, selected_columns, writable_columns, row_rule, owner_rule,
  owner_key, grant_for, constraint_for, anonymous_permissions, anonymous_columns,
}
use druvia.DataAccess.Policy.Materialize.Rows.{Row, allowed}
use druvia.DataAccess.Managed.{
  unique_from, unique_sorted, intersection, materialize_reconcile_grants, normalize_read,
  normalize_write, normalize_column_grants_for_policy, validate_transition_modes,
  validate_reconcile_policy_transition,
}
use druvia.DataAccess.Managed.Reconcile.{
  ManagedPolicyRecord, ReconcilePreviewInput, ReconcileTarget, close_owner, close_insert,
  safe_modes, clear_unused_owner, safe_access, materialize_safe_reconcile_policy,
  validate_column_grant_modes, target_policy, target_grants, preview_run, preview_policy_reconcile,
}
use druvia.DataAccess.Managed.Reconcile.Narrow.{preview_policy_reconcile-narrows}
use druvia.DataAccess.Managed.Reconcile.Total.{preview_policy_reconcile-Returns}

abbrev modes : DataAccessOperation → AuthenticatedAccessMode
modes select = owner
modes update = owner
modes _ = AuthenticatedAccessMode.none

abbrev notes : TableDataAccessInput
notes = record {
  policy_version = some 1;
  authenticated = record {
    mode = modes;
    owner_column = some "author";
    select_constraint = Option.none;
  };
  anonymous_select = false;
}

abbrev columns_of : List String → DataAccessColumnCapabilities
columns_of columns = record {
  readable_columns = columns;
  insertable_columns = columns;
  updateable_columns = columns;
}

abbrev was : DataAccessColumnCapabilities
was = columns_of ("author" ∷ "body" ∷ "draft" ∷ [])

abbrev now : DataAccessColumnCapabilities
now = columns_of ("author" ∷ "body" ∷ "title" ∷ [])

abbrev grants : DataAccessColumnGrants
grants = record {
  select = "author" ∷ "body" ∷ "draft" ∷ [];
  insert = [];
  update = "body" ∷ "draft" ∷ [];
  anonymous_select = [];
}

abbrev roles : DataAccessRoleNames
roles = record { authenticated = "p_user"; anonymous = "p_anon" }

abbrev baseline : ManagedPolicyRecord
baseline = record {
  policy_version = 1;
  policy = notes;
  column_grants = grants;
  has_dependency = false;
}

abbrev asked : ReconcilePreviewInput
asked = record { policy = Option.none; column_grants = Option.none }

abbrev permissions_on : List String → List String → List MaterializedDataPermission
permissions_on read written =
    record {
      role = "p_user";
      operation = select;
      permission = selecting read (owner_is_user "author") false;
    }
    ∷ record {
      role = "p_user";
      operation = update;
      permission = updating written (owner_is_user "author") (owner_is_user "author");
    }
    ∷ []

abbrev before : List MaterializedDataPermission
before = permissions_on ("author" ∷ "body" ∷ "draft" ∷ []) ("body" ∷ "draft" ∷ [])

made :
    materialize_table_data_access_policy notes
      record { roles = roles; capabilities = was; column_grants = some grants }
    ≡ ok before
unfolding materialize_table_data_access_policy validate_table_data_access_input validate_modes
    validate_constraint version_of validate_owner validate_owner_column uses_owner_mode
    authenticated_permissions permission_for create_authenticated_permission selected_columns
    writable_columns row_rule owner_rule owner_key grant_for constraint_for anonymous_permissions
    anonymous_columns validate_grant_columns has_duplicate sort insert_sorted str_leb
made = refl

abbrev after : ReconcileTarget
after = record {
  policy = notes;
  column_grants = record {
    select = "author" ∷ "body" ∷ [];
    insert = [];
    update = "body" ∷ [];
    anonymous_select = [];
  };
  permissions = permissions_on ("author" ∷ "body" ∷ []) ("body" ∷ []);
}

previewed :
    preview_policy_reconcile (λ policy. "p") (λ columns. "g") false baseline roles now asked
    ≡ ok after
unfolding preview_policy_reconcile preview_run target_policy target_grants
    materialize_safe_reconcile_policy safe_access clear_unused_owner safe_modes close_owner
    close_insert validate_reconcile_policy_transition validate_transition_modes
    materialize_reconcile_grants intersection unique_sorted unique_from
    normalize_column_grants_for_policy normalize_read normalize_write validate_column_grant_modes
    materialize_table_data_access_policy validate_table_data_access_input validate_modes
    validate_constraint version_of validate_owner validate_owner_column uses_owner_mode
    authenticated_permissions permission_for create_authenticated_permission selected_columns
    writable_columns row_rule owner_rule owner_key grant_for constraint_for anonymous_permissions
    anonymous_columns validate_grant_columns has_duplicate sort insert_sorted str_leb
previewed = refl

abbrev own_row : Row
own_row = record { holds_user = λ c. true; related = λ relation c t. false }

different : {a b : String} → str_eq a b ≡ false → a ≢ b
different {a} {b} h e = ground (arith, eq_iff a b)

preview_policy_reconcile-narrows_example :
    ((not (allowed after.permissions "p_user" select own_row)
        || allowed before "p_user" select own_row)
      ≡ true)
    × ((not (allowed after.permissions "p_anon" select own_row)
          || allowed before "p_anon" select own_row)
        ≡ true)
preview_policy_reconcile-narrows_example =
    preview_policy_reconcile-narrows (λ policy. "p") (λ columns. "g") false baseline roles now asked
      after was before select own_row previewed made (unfold version_of in refl) tt tt
      (different refl)

preview_policy_reconcile-Returns_example :
    Returns
      (preview_policy_reconcile (λ policy. "p") (λ columns. "g") false baseline roles now asked)
preview_policy_reconcile-Returns_example =
    preview_policy_reconcile-Returns (λ policy. "p") (λ columns. "g") false baseline roles now was
      before made (unfold version_of in refl) refl refl
