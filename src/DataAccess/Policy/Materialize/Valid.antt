-- ===== src/DataAccess/Policy/Materialize/Valid.antt =====
-- What the validation of a policy guarantees to the code that makes the permissions.
use mathlib.Core.Option.{Option, some}
use druvia.Prelude.{◌≡◌, ◌≢◌, true, ok, arith}
use druvia.DataAccess.Types.{
  DataAccessOperation, select, SelectConstraint, AuthenticatedTableAccess, TableDataAccessInput,
  DataAccessColumnCapabilities,
}
use druvia.DataAccess.Policy.{
  operations, is_owner, is_supported, validate_table_data_access_input, constraint_ok,
  validate_modes, validate_constraint, validate_owner, version_of, validate_owner_column,
  uses_owner_mode, validate_projection_constraint,
}

-- What validation gives.
pub record Valid (a : AuthenticatedTableAccess) : Type 0 where
  pub supported : (op : DataAccessOperation) → is_supported (a.mode op) ≡ true
  pub owned :
      (op : DataAccessOperation) → is_owner (a.mode op) ≡ true → a.owner_column ≢ Option.none
  pub constrained : (c : SelectConstraint) → a.select_constraint ≡ some c → constraint_ok c ≡ true

module _ (input : TableDataAccessInput) (caps : DataAccessColumnCapabilities)
    (accepted : validate_table_data_access_input input caps ≡ ok tt) where
  passed_checks :
      (validate_modes input.authenticated.mode operations ≡ ok tt)
      × (validate_constraint
            (version_of input.policy_version)
            (input.authenticated.mode select)
            input.authenticated.select_constraint
          ≡ ok tt)
      × (validate_owner input.authenticated caps ≡ ok tt)
  unfolding validate_table_data_access_input
  passed_checks = (ground arith, ground arith, ground arith)

  supported_of : (op : DataAccessOperation) → is_supported (input.authenticated.mode op) ≡ true
  unfolding validate_modes
  supported_of select = ground (arith, passed_checks)
  supported_of op = ground (arith, passed_checks)

  owned_of :
      (op : DataAccessOperation)
      → is_owner (input.authenticated.mode op) ≡ true
      → input.authenticated.owner_column ≢ Option.none
  unfolding validate_owner validate_owner_column uses_owner_mode
  owned_of select o = ground (arith, passed_checks.2)
  owned_of op o = ground (arith, passed_checks.2)

  constrained_of :
      (c : SelectConstraint)
      → input.authenticated.select_constraint ≡ some c
      → constraint_ok c ≡ true
  unfolding validate_constraint validate_projection_constraint
  constrained_of c e = ground (arith, passed_checks.1)

  pub validate-Valid : Valid input.authenticated
  validate-Valid = record {
    supported = supported_of;
    owned = owned_of;
    constrained = constrained_of;
  }
