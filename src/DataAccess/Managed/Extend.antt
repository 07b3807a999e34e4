-- ===== src/DataAccess/Managed/Extend.antt =====
-- extendProjectionColumnGrants of apps/api/src/modules/data-access/data-access-managed-policy.ts.
pub mod Granted
mod Examples
use mathlib.Core.Option
use mathlib.Core.Option.{Option, some}
use druvia.Prelude.{
  String, Bool, true, false, ◌&&◌, not, List, [], ◌∷◌, ◌++◌, any, includes, is_empty, or_else,
  Result, ok, err, ◌>>=◌, ◌>>◌, guard, if◌then◌else◌,
}
use druvia.DataAccess.Types.{
  AuthenticatedAccessMode, DataAccessOperation, select, insert, DataAccessColumnCapabilities,
  DataAccessColumnGrants,
}
use druvia.DataAccess.Policy.{is_owner, has_duplicate}
use druvia.DataAccess.Managed.{is_none}

-- `other_keys` holds the keys besides the two that are known; that the values are arrays of strings
-- is in their types.
pub record ProjectionGrantAdditions : Type 0 where
  pub select : Option (List String)
  pub insert : Option (List String)
  pub other_keys : List String

pub record ProjectionModes : Type 0 where
  pub select : AuthenticatedAccessMode
  pub insert : AuthenticatedAccessMode
  pub owner_column : Option String

pub data ExtendError : Type 0 where
  other_operation nothing_requested owner_preset : ExtendError
  operation_closed duplicate_column already_granted not_available :
      DataAccessOperation → ExtendError

-- One turn of the loop over the two operations: the columns that are asked for, and the granted and
-- the available ones.
unfoldable pub check_extension :
    DataAccessOperation
    → AuthenticatedAccessMode
    → List String
    → List String
    → List String
    → Result ExtendError (Unit {0})
check_extension op mode [] granted available = ok tt
check_extension op mode columns granted available = do
  guard (not (is_none mode)) (operation_closed op)
  guard (not (has_duplicate columns)) (duplicate_column op)
  guard (not (any (λ c. includes granted c) columns)) (already_granted op)
  guard (not (any (λ c. not (includes available c)) columns)) (not_available op)

unfoldable pub extend_projection_column_grants :
    DataAccessColumnGrants
    → DataAccessColumnCapabilities
    → ProjectionModes
    → ProjectionGrantAdditions
    → Result ExtendError DataAccessColumnGrants
unfolding check_extension
extend_projection_column_grants grants capabilities modes additions = do
  guard (is_empty additions.other_keys) other_operation
  let reading = or_else additions.select []
  let inserting = or_else additions.insert []
  guard (not (is_empty reading && is_empty inserting)) nothing_requested
  check_extension select modes.select reading grants.select capabilities.readable_columns
  check_extension insert modes.insert inserting grants.insert capabilities.insertable_columns
  guard (not (is_owner modes.insert && includes inserting (or_else modes.owner_column "")))
      owner_preset
  ok record {
    select = grants.select ++ reading;
    insert = grants.insert ++ inserting;
    update = grants.update;
    anonymous_select = grants.anonymous_select;
  }
