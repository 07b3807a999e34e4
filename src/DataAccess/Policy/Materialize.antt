-- ===== src/DataAccess/Policy/Materialize.antt =====
-- apps/api/src/modules/data-access/data-access-policy.ts: the permissions that a policy stands for.
pub mod Rows
pub mod Valid
pub mod Sound
pub mod Accepts
mod Examples
mod ReconcileExamples
use mathlib.Core.Option
use mathlib.Core.Option.{Option, some}
use druvia.Prelude.{
  ℕ, ◌==◌, String, str_eq, if◌then◌else◌, Bool, true, false, ◌&&◌, ◌||◌, not, List, [], ◌∷◌, ◌++◌,
  any, includes, Result, ok, err, ◌>>=◌, ◌>>◌,
}
use druvia.Prelude
use druvia.DataAccess.Types.{
  AuthenticatedAccessMode, all, owner, unsupported, DataAccessOperation, select, insert, update,
  delete, SelectConstraint, AuthenticatedTableAccess, TableDataAccessInput, DataAccessRoleNames,
  DataAccessColumnCapabilities, DataAccessColumnGrants, MaterializeOptions, Test, equals_user,
  is_true, has_environment, RowRule, every_row, owner_is_user, owner_and_related, Permission,
  selecting, inserting, updating, deleting, MaterializedDataPermission, DataAccessValidationError,
}
use druvia.DataAccess.Policy.{
  operations, is_owner, validate_table_data_access_input, validate_grant_columns,
}

-- A property of an object literal: a key that is there already is overwritten in its place.
put_test : String → Test → List (String × Test) → List (String × Test)
put_test k t [] = (k, t) ∷ []
put_test k t ((j, u) ∷ ts) = if str_eq j k then (k, t) ∷ ts else (j, u) ∷ put_test k t ts

environment_test : Option String → List (String × Test) → List (String × Test)
environment_test Option.none ts = ts
environment_test (some e) ts = if str_eq e "" then ts else put_test e has_environment ts

constraint_tests : SelectConstraint → List (String × Test)
unfolding put_test environment_test
constraint_tests c =
    environment_test c.environment_column
      (put_test c.allow_column is_true (put_test c.actor_column equals_user []))

-- constraint.relationshipPath[0]; a missing element is the key "undefined".
first_name : List String → String
first_name [] = "undefined"
first_name (n ∷ _) = n

-- `ownerColumn!` as a key.
owner_key : Option String → String
owner_key Option.none = "null"
owner_key (some c) = c

owner_rule : Option String → Option SelectConstraint → RowRule
owner_rule column Option.none = owner_is_user (owner_key column)
owner_rule column (some c) =
    owner_and_related (owner_key column) (first_name c.relationship_path) (constraint_tests c)

row_rule : AuthenticatedAccessMode → Option String → Option SelectConstraint → RowRule
row_rule all column c = every_row
row_rule _ column c = owner_rule column c

writable_columns : AuthenticatedAccessMode → Option String → List String → List String
writable_columns owner (some column) columns = Prelude.select (λ c. not (str_eq c column)) columns
writable_columns mode column columns = columns

selected_columns :
    Option (List String) → List String → Result DataAccessValidationError (List String)
selected_columns Option.none allowed = ok allowed
selected_columns (some granted) allowed = validate_grant_columns granted allowed

insert_preset : AuthenticatedAccessMode → Option String → Option String
insert_preset owner column = some (owner_key column)
insert_preset mode column = Option.none

create_authenticated_permission :
    DataAccessOperation
    → AuthenticatedAccessMode
    → DataAccessColumnCapabilities
    → Option String
    → Option (List String)
    → Option SelectConstraint
    → Result DataAccessValidationError Permission
create_authenticated_permission select mode caps column granted c = do
  columns ← selected_columns granted caps.readable_columns
  ok (selecting columns (row_rule mode column c) false)
create_authenticated_permission insert mode caps column granted c = do
  columns ← selected_columns granted caps.insertable_columns
  ok (
      inserting (writable_columns mode column columns) (row_rule mode column c)
        (insert_preset mode column))
create_authenticated_permission update mode caps column granted c = do
  columns ← selected_columns granted caps.updateable_columns
  ok (
      updating (writable_columns mode column columns) (row_rule mode column c)
        (row_rule mode column c))
create_authenticated_permission delete mode caps column granted c =
    ok (deleting (row_rule mode column c))

grant_for : Option DataAccessColumnGrants → DataAccessOperation → Option (List String)
grant_for Option.none op = Option.none
grant_for (some g) select = some g.select
grant_for (some g) insert = some g.insert
grant_for (some g) update = some g.update
grant_for (some g) delete = some g.select

constraint_for : DataAccessOperation → Option SelectConstraint → Option SelectConstraint
constraint_for select c = c
constraint_for _ c = Option.none

permission_for :
    TableDataAccessInput
    → MaterializeOptions
    → DataAccessOperation
    → AuthenticatedAccessMode
    → Result DataAccessValidationError (List MaterializedDataPermission)
permission_for input options op AuthenticatedAccessMode.none = ok []
permission_for input options op mode = do
  permission ←
      create_authenticated_permission op mode options.capabilities input.authenticated.owner_column
        (grant_for options.column_grants op)
        (constraint_for op input.authenticated.select_constraint)
  ok (record { role = options.roles.authenticated; operation = op; permission = permission } ∷ [])

-- The loop over the operations.
authenticated_permissions :
    TableDataAccessInput
    → MaterializeOptions
    → List DataAccessOperation
    → Result DataAccessValidationError (List MaterializedDataPermission)
authenticated_permissions input options [] = ok []
authenticated_permissions input options (op ∷ ops) = do
  here ← permission_for input options op (input.authenticated.mode op)
  later ← authenticated_permissions input options ops
  ok (here ++ later)

anonymous_columns :
    Option DataAccessColumnGrants → List String → Result DataAccessValidationError (List String)
anonymous_columns Option.none readable = ok readable
anonymous_columns (some g) readable = validate_grant_columns g.anonymous_select readable

anonymous_permissions :
    Bool → MaterializeOptions → Result DataAccessValidationError (List MaterializedDataPermission)
unfolding anonymous_columns
anonymous_permissions false options = ok []
anonymous_permissions true options = do
  columns ← anonymous_columns options.column_grants options.capabilities.readable_columns
  ok (
      record {
        role = options.roles.anonymous;
        operation = select;
        permission = selecting columns every_row false;
      }
      ∷ [])

pub materialize_table_data_access_policy :
    TableDataAccessInput
    → MaterializeOptions
    → Result DataAccessValidationError (List MaterializedDataPermission)
materialize_table_data_access_policy input options = do
  validate_table_data_access_input input options.capabilities
  authenticated ← authenticated_permissions input options operations
  anonymous ← anonymous_permissions input.anonymous_select options
  ok (authenticated ++ anonymous)
