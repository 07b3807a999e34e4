-- ===== src/DataAccess/Managed.antt =====
-- apps/api/src/modules/data-access/data-access-managed-policy.ts: the columns and the policies that
-- a table may be reconciled to after its columns changed.
pub mod Columns
pub mod Drift
pub mod Reconcile
pub mod Extend
pub mod Recover
use mathlib.Core.Option
use mathlib.Core.Option.{Option, some}
use druvia.Prelude.{
  ℕ, ◌==◌, String, str_eq, opt_is, if◌then◌else◌, Bool, true, false, ◌&&◌, ◌||◌, not, List, [], ◌∷◌,
  ◌++◌, any, includes, length, Result, ok, err, ◌>>=◌, ◌>>◌, guard,
}
use druvia.Prelude
use druvia.DataAccess.Types.{
  AuthenticatedAccessMode, all, owner, unsupported, DataAccessOperation, select, insert, update,
  delete, AuthenticatedTableAccess, TableDataAccessInput, DataAccessColumnCapabilities,
  DataAccessColumnGrants,
}
use druvia.DataAccess.Policy.{operations, is_owner, uses_owner_mode, sort, has_duplicate}

-- `[...new Set(values)]`: the first of equal values is kept.
unfoldable pub unique_from : List String → List String → List String
unique_from seen [] = []
unique_from seen (x ∷ xs) =
    let rest = unique_from (x ∷ seen) xs in if includes seen x then rest else x ∷ rest

unfoldable pub unique_sorted : List String → List String
unfolding unique_from
unique_sorted values = sort (unique_from [] values)

unfoldable pub difference : List String → List String → List String
unfolding unique_sorted
difference left right = unique_sorted (Prelude.select (λ c. not (includes right c)) left)

unfoldable pub intersection : List String → List String → List String
unfolding unique_sorted
intersection left right = unique_sorted (Prelude.select (λ c. includes right c) left)

pub record DataAccessColumnDrift : Type 0 where
  pub added_readable : List String
  pub added_insertable : List String
  pub added_updateable : List String
  pub removed_or_restricted : List String

unfoldable pub build_column_capability_drift :
    DataAccessColumnCapabilities → DataAccessColumnCapabilities → DataAccessColumnDrift
unfolding difference
build_column_capability_drift baseline current = record {
  added_readable = difference current.readable_columns baseline.readable_columns;
  added_insertable = difference current.insertable_columns baseline.insertable_columns;
  added_updateable = difference current.updateable_columns baseline.updateable_columns;
  removed_or_restricted = unique_sorted (
      difference baseline.readable_columns current.readable_columns
      ++ (difference baseline.insertable_columns current.insertable_columns
          ++ difference baseline.updateable_columns current.updateable_columns));
}

unfoldable pub materialize_reconcile_grants :
    DataAccessColumnGrants → DataAccessColumnCapabilities → DataAccessColumnGrants
unfolding intersection
materialize_reconcile_grants baseline current = record {
  select = intersection baseline.select current.readable_columns;
  insert = intersection baseline.insert current.insertable_columns;
  update = intersection baseline.update current.updateable_columns;
  anonymous_select = intersection baseline.anonymous_select current.readable_columns;
}

-- The read columns of a mode, and the written ones, without the owner column where it is preset.
unfoldable pub normalize_read : AuthenticatedAccessMode → List String → List String
normalize_read AuthenticatedAccessMode.none columns = []
normalize_read mode columns = columns

unfoldable pub normalize_write : Option String → AuthenticatedAccessMode → List String → List String
normalize_write owner_column AuthenticatedAccessMode.none columns = []
normalize_write owner_column owner columns =
    Prelude.select (λ column. not (opt_is owner_column column)) columns
normalize_write owner_column mode columns = columns

unfoldable pub normalize_column_grants_for_policy :
    TableDataAccessInput → DataAccessColumnGrants → DataAccessColumnGrants
unfolding normalize_read normalize_write
normalize_column_grants_for_policy policy grants = record {
  select = normalize_read (policy.authenticated.mode select) grants.select;
  insert =
      normalize_write policy.authenticated.owner_column (policy.authenticated.mode insert)
        grants.insert;
  update =
      normalize_write policy.authenticated.owner_column (policy.authenticated.mode update)
        grants.update;
  anonymous_select = if policy.anonymous_select then grants.anonymous_select else [];
}

pub data ReconcileError : Type 0 where
  cannot_broaden : DataAccessOperation → ReconcileError
  cannot_broaden_anonymous cannot_replace_owner must_clear_owner : ReconcileError

abbrev pub mode_eq : AuthenticatedAccessMode → AuthenticatedAccessMode → Bool
mode_eq AuthenticatedAccessMode.none AuthenticatedAccessMode.none = true
mode_eq all all = true
mode_eq owner owner = true
mode_eq (unsupported a) (unsupported b) = str_eq a b
mode_eq _ _ = false

abbrev pub is_none : AuthenticatedAccessMode → Bool
is_none AuthenticatedAccessMode.none = true
is_none _ = false

-- `===` on columns that may be null.
abbrev pub column_eq : Option String → Option String → Bool
column_eq Option.none Option.none = true
column_eq (some a) (some b) = str_eq a b
column_eq _ _ = false

-- The loop over the operations.
unfoldable pub validate_transition_modes :
    (DataAccessOperation → AuthenticatedAccessMode)
    → (DataAccessOperation → AuthenticatedAccessMode)
    → List DataAccessOperation
    → Result ReconcileError (Unit {0})
validate_transition_modes old new [] = ok tt
validate_transition_modes old new (op ∷ ops) = do
  guard (is_none (new op) || mode_eq (new op) (old op)) (cannot_broaden op)
  validate_transition_modes old new ops

unfoldable pub validate_reconcile_policy_transition :
    TableDataAccessInput → TableDataAccessInput → Result ReconcileError (Unit {0})
unfolding validate_transition_modes uses_owner_mode
validate_reconcile_policy_transition baseline target = do
  validate_transition_modes baseline.authenticated.mode target.authenticated.mode operations
  guard (not target.anonymous_select || baseline.anonymous_select) cannot_broaden_anonymous
  let target_uses_owner = uses_owner_mode target.authenticated
  guard
      (not target_uses_owner
        || column_eq target.authenticated.owner_column baseline.authenticated.owner_column)
      cannot_replace_owner
  guard (target_uses_owner || column_eq target.authenticated.owner_column Option.none)
      must_clear_owner
