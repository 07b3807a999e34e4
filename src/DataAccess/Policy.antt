-- ===== src/DataAccess/Policy.antt =====
-- apps/api/src/modules/data-access/data-access-policy.ts: validation of a table's access policy,
-- and the Hasura permissions that it stands for.
pub mod Materialize
pub mod Sorting
use mathlib.Core.Option
use mathlib.Core.Option.{Option, some}
use Prim.Native.String.{compare}
use Prim.Native.Nat.{Ordering}
use druvia.Prelude.{
  ℕ, ◌==◌, String, str_eq, if◌then◌else◌, Bool, true, false, ◌&&◌, ◌||◌, not, List, [], ◌∷◌, ◌++◌,
  any, includes, Result, ok, err, ◌>>=◌, ◌>>◌, guard, is_some,
}
use druvia.DataAccess.Types.{
  AuthenticatedAccessMode, all, owner, unsupported, DataAccessOperation, select, insert, update,
  delete, SelectConstraint, AuthenticatedTableAccess, TableDataAccessInput,
  DataAccessColumnCapabilities, DataAccessColumnGrants, MaterializeOptions, Test, equals_user,
  is_true, has_environment, RowRule, every_row, owner_is_user, owner_and_related, Permission,
  selecting, inserting, updating, deleting, MaterializedDataPermission, DataAccessValidationError,
  unsupported_mode, unsupported_version, constraint_needs_version_2, version_2_needs_constraint,
  projection_needs_owner_select, owner_column_required, owner_column_unknown,
  owner_column_not_insertable, invalid_constraint, invalid_grant,
}

abbrev pub operations : List DataAccessOperation
operations = select ∷ insert ∷ update ∷ delete ∷ []

pub create_closed_table_data_access_policy : TableDataAccessInput
create_closed_table_data_access_policy = record {
  policy_version = some 1;
  authenticated = record {
    mode = λ _. AuthenticatedAccessMode.none;
    owner_column = Option.none;
    select_constraint = Option.none;
  };
  anonymous_select = false;
}

abbrev pub is_owner : AuthenticatedAccessMode → Bool
is_owner owner = true
is_owner _ = false

abbrev pub is_supported : AuthenticatedAccessMode → Bool
is_supported (unsupported _) = false
is_supported _ = true

validate_modes :
    (DataAccessOperation → AuthenticatedAccessMode)
    → List DataAccessOperation
    → Result DataAccessValidationError (Unit {0})
validate_modes mode [] = ok tt
validate_modes mode (op ∷ ops) = do
  guard (is_supported (mode op)) (unsupported_mode op)
  validate_modes mode ops

abbrev single_named : List String → Bool
single_named (name ∷ []) = not (str_eq name "")
single_named _ = false

environment_ok : SelectConstraint → Option String → Bool
environment_ok c Option.none = true
environment_ok c (some e) =
    not (str_eq e "") && (not (str_eq e c.actor_column) && not (str_eq e c.allow_column))

abbrev no_keys : List String → Bool
no_keys [] = true
no_keys _ = false

pub constraint_ok : SelectConstraint → Bool
unfolding environment_ok
constraint_ok c =
    str_eq c.type "authorization_projection"
    && (no_keys c.other_keys
        && (single_named c.relationship_path
            && (not (str_eq c.actor_column "")
                && (not (str_eq c.allow_column "") && environment_ok c c.environment_column))))

validate_projection_constraint : SelectConstraint → Result DataAccessValidationError (Unit {0})
validate_projection_constraint c = guard (constraint_ok c) invalid_constraint

unfoldable pub version_of : Option ℕ → ℕ
version_of Option.none = 1
version_of (some v) = v

validate_constraint :
    ℕ
    → AuthenticatedAccessMode
    → Option SelectConstraint
    → Result DataAccessValidationError (Unit {0})
unfolding validate_projection_constraint
validate_constraint version select_mode Option.none =
    guard (not (version == 2)) version_2_needs_constraint
validate_constraint version select_mode (some c) = do
  guard (version == 2) constraint_needs_version_2
  validate_projection_constraint c
  guard (is_owner select_mode) projection_needs_owner_select

validate_owner_column :
    AuthenticatedAccessMode
    → DataAccessColumnCapabilities
    → Option String
    → Result DataAccessValidationError (Unit {0})
validate_owner_column insert_mode caps Option.none = err owner_column_required
validate_owner_column insert_mode caps (some column) = do
  guard (not (str_eq column "")) owner_column_required
  guard (includes caps.readable_columns column) owner_column_unknown
  guard (not (is_owner insert_mode) || includes caps.insertable_columns column)
      owner_column_not_insertable

unfoldable pub uses_owner_mode : AuthenticatedTableAccess → Bool
uses_owner_mode a = any (λ op. is_owner (a.mode op)) operations

validate_owner :
    AuthenticatedTableAccess
    → DataAccessColumnCapabilities
    → Result DataAccessValidationError (Unit {0})
validate_owner a caps =
    if not (uses_owner_mode a)
    then ok tt
    else validate_owner_column (a.mode insert) caps a.owner_column

-- The test that `anonymous.select` is a Boolean is in its type.
pub validate_table_data_access_input :
    TableDataAccessInput
    → DataAccessColumnCapabilities
    → Result DataAccessValidationError (Unit {0})
validate_table_data_access_input input caps = do
  validate_modes input.authenticated.mode operations
  let version = version_of input.policy_version
  guard (version == 1 || version == 2) unsupported_version
  validate_constraint version (input.authenticated.mode select)
      input.authenticated.select_constraint
  validate_owner input.authenticated caps

-- `[...columns].sort()`; texts are compared by code points, as UTF-16 does outside the surrogates.
str_leb : String → String → Bool
str_leb a b = elim (compare a b) [ Ordering.gt ↦ false | _ ↦ true ]

insert_sorted : String → List String → List String
insert_sorted x [] = x ∷ []
insert_sorted x (y ∷ ys) =
    let rest = insert_sorted x ys in if str_leb x y then x ∷ y ∷ ys else y ∷ rest

pub sort : List String → List String
unfolding insert_sorted str_leb
sort [] = []
sort (x ∷ xs) = insert_sorted x (sort xs)

unfoldable pub has_duplicate : List String → Bool
has_duplicate [] = false
has_duplicate (x ∷ xs) = includes xs x || has_duplicate xs

pub validate_grant_columns :
    List String → List String → Result DataAccessValidationError (List String)
unfolding has_duplicate sort
validate_grant_columns columns allowed =
    if has_duplicate columns || any (λ c. not (includes allowed c)) columns
    then err invalid_grant
    else ok (sort columns)
