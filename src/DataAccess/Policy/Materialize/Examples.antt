-- ===== src/DataAccess/Policy/Materialize/Examples.antt =====
-- A policy of data-access-policy.ts whose rows are the caller's own, with a constraint on what may
-- be selected.
use mathlib.Core.Option.{Option, some}
use druvia.Prelude.{
  ◌==◌, String, str_eq, eq_iff, arith, ◌≡◌, ◌≢◌, refl, true, false, ◌&&◌, List, [], ◌∷◌, ok,
}
use druvia.DataAccess.Types.{
  AuthenticatedAccessMode, owner, DataAccessOperation, select, update, SelectConstraint,
  TableDataAccessInput, MaterializeOptions, MaterializedDataPermission, equals_user, is_true,
  owner_is_user, owner_and_related, selecting, updating,
}
use druvia.DataAccess.Policy.{
  validate_table_data_access_input, validate_modes, validate_constraint,
  validate_projection_constraint, constraint_ok, environment_ok, version_of, validate_owner,
  validate_owner_column, uses_owner_mode,
}
use druvia.DataAccess.Policy.Materialize.{
  materialize_table_data_access_policy, authenticated_permissions, permission_for,
  create_authenticated_permission, selected_columns, writable_columns, row_rule, owner_rule,
  owner_key, first_name, constraint_tests, put_test, environment_test, grant_for, constraint_for,
  anonymous_permissions, anonymous_columns,
}
use druvia.DataAccess.Policy.Materialize.Rows.{Row, op_index, allowed, policy_allows}
use druvia.DataAccess.Policy.Materialize.Sound.{materialize_opens_policy}

abbrev granted : SelectConstraint
granted = record {
  type = "authorization_projection";
  relationship_path = "grant" ∷ [];
  actor_column = "actor_id";
  allow_column = "allowed";
  environment_column = Option.none;
  other_keys = [];
}

abbrev modes : DataAccessOperation → AuthenticatedAccessMode
modes select = owner
modes update = owner
modes _ = AuthenticatedAccessMode.none

abbrev notes : TableDataAccessInput
notes = record {
  policy_version = some 2;
  authenticated = record {
    mode = modes;
    owner_column = some "author";
    select_constraint = some granted;
  };
  anonymous_select = false;
}

abbrev columns : List String
columns = "author" ∷ "body" ∷ []

abbrev options : MaterializeOptions
options = record {
  roles = record { authenticated = "p_user"; anonymous = "p_anon" };
  capabilities = record {
    readable_columns = columns;
    insertable_columns = columns;
    updateable_columns = columns;
  };
  column_grants = Option.none;
}

abbrev permissions : List MaterializedDataPermission
permissions =
    record {
      role = "p_user";
      operation = select;
      permission =
          selecting columns
            (owner_and_related "author" "grant"
              (("actor_id", equals_user) ∷ ("allowed", is_true) ∷ []))
            false;
    }
    ∷ record {
      role = "p_user";
      operation = update;
      permission = updating ("body" ∷ []) (owner_is_user "author") (owner_is_user "author");
    }
    ∷ []

made : materialize_table_data_access_policy notes options ≡ ok permissions
unfolding materialize_table_data_access_policy validate_table_data_access_input validate_modes
    validate_constraint validate_projection_constraint constraint_ok environment_ok version_of
    validate_owner validate_owner_column uses_owner_mode authenticated_permissions permission_for
    create_authenticated_permission selected_columns writable_columns row_rule owner_rule owner_key
    first_name constraint_tests put_test environment_test grant_for constraint_for
    anonymous_permissions anonymous_columns
made = refl

abbrev own_row : Row
own_row = record { holds_user = λ c. true; related = λ relation c t. true }

different : {a b : String} → str_eq a b ≡ false → a ≢ b
different {a} {b} h e = ground (arith, eq_iff a b)

materialize_opens_policy_example :
    (allowed permissions "p_user" select own_row ≡ policy_allows notes.authenticated select own_row)
    × (allowed permissions "p_anon" select own_row
        ≡ (notes.anonymous_select && op_index select == op_index select))
materialize_opens_policy_example =
    materialize_opens_policy notes options permissions select own_row made (different refl)
      (different refl)
