-- ===== src/DataAccess/Types.antt =====
-- apps/api/src/modules/data-access/data-access.types.ts, and the parts of a Hasura permission that
-- the policy code writes.
use druvia.Prelude.{ℕ, String, Bool, List}
use mathlib.Core.Option.{Option}

-- `unsupported` is any other string that a client may send.
pub data AuthenticatedAccessMode : Type 0 where
  none all owner : AuthenticatedAccessMode
  unsupported : String → AuthenticatedAccessMode

pub data DataAccessOperation : Type 0 where
  select insert update delete : DataAccessOperation

-- `other_keys` holds the keys of the object besides the five that are known.
pub record SelectConstraint : Type 0 where
  pub type : String
  pub relationship_path : List String
  pub actor_column : String
  pub allow_column : String
  pub environment_column : Option String
  pub other_keys : List String

pub record AuthenticatedTableAccess : Type 0 where
  pub mode : DataAccessOperation → AuthenticatedAccessMode
  pub owner_column : Option String
  pub select_constraint : Option SelectConstraint

pub record TableDataAccessInput : Type 0 where
  pub policy_version : Option ℕ
  pub authenticated : AuthenticatedTableAccess
  pub anonymous_select : Bool

pub record DataAccessColumnCapabilities : Type 0 where
  pub readable_columns : List String
  pub insertable_columns : List String
  pub updateable_columns : List String

pub record DataAccessRoleNames : Type 0 where
  pub authenticated : String
  pub anonymous : String

pub record DataAccessColumnGrants : Type 0 where
  pub select : List String
  pub insert : List String
  pub update : List String
  pub anonymous_select : List String

pub record MaterializeOptions : Type 0 where
  pub roles : DataAccessRoleNames
  pub capabilities : DataAccessColumnCapabilities
  pub column_grants : Option DataAccessColumnGrants

-- What a column is compared with: { _eq: 'X-Hasura-User-Id' }, { _eq: true } and
-- { _has_key: 'X-Hasura-Druvia-Service-Environment' }.
pub data Test : Type 0 where
  equals_user is_true has_environment : Test

-- {}, { [column]: { _eq: user } } and { _and: [owner, { [relationship]: tests } ] }.
pub data RowRule : Type 0 where
  every_row : RowRule
  owner_is_user : String → RowRule
  owner_and_related : String → String → List (String × Test) → RowRule

pub data Permission : Type 0 where
  -- columns, filter, allow_aggregations
  selecting : List String → RowRule → Bool → Permission
  -- columns, check, set
  inserting : List String → RowRule → Option String → Permission
  -- columns, filter, check
  updating : List String → RowRule → RowRule → Permission
  -- filter
  deleting : RowRule → Permission

pub record MaterializedDataPermission : Type 0 where
  pub role : String
  pub operation : DataAccessOperation
  pub permission : Permission

pub data DataAccessValidationError : Type 0 where
  unsupported_mode : DataAccessOperation → DataAccessValidationError
  unsupported_version constraint_needs_version_2 version_2_needs_constraint :
      DataAccessValidationError
  projection_needs_owner_select owner_column_required owner_column_unknown :
      DataAccessValidationError
  owner_column_not_insertable invalid_constraint : DataAccessValidationError
  invalid_grant : DataAccessValidationError
