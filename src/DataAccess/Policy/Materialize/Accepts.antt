-- ===== src/DataAccess/Policy/Materialize/Accepts.antt =====
-- Which policies and columns permissions are made from.
use mathlib.Core.Option.{Option, some}
use druvia.Prelude.{
  ℕ, str_eq, includes, Bool-cases, List, [], ◌∷◌, String, Returns, >>=-Returns, ◌≡◌, refl, ◌==◌,
  Bool, true, false, ok, after_bind, arith, inl, inr,
}
use druvia.DataAccess.Types.{
  AuthenticatedTableAccess, insert, update, delete, DataAccessOperation, DataAccessRoleNames,
  DataAccessColumnGrants, SelectConstraint, TableDataAccessInput, MaterializeOptions,
  MaterializedDataPermission, DataAccessColumnCapabilities, AuthenticatedAccessMode, select,
}
use druvia.DataAccess.Policy.Sorting.{IsGrant, validate_grant_columns_ok}
use druvia.DataAccess.Policy.{
  validate_owner, validate_owner_column, uses_owner_mode, is_owner, is_supported,
  validate_table_data_access_input, validate_modes, validate_constraint, version_of, operations,
}
use druvia.DataAccess.Policy.Materialize.Valid.{Valid}
use druvia.DataAccess.Policy.Materialize.{
  materialize_table_data_access_policy, authenticated_permissions, anonymous_permissions,
  permission_for, create_authenticated_permission, selected_columns, grant_for, constraint_for,
  anonymous_columns,
}

constraint_version :
    (version : ℕ) (mode : AuthenticatedAccessMode) (c : Option SelectConstraint)
    → validate_constraint version mode c ≡ ok tt
    → version == 2 ≡ false
    → c ≡ Option.none
unfolding validate_constraint
constraint_version version mode Option.none accepted other = refl
constraint_version version mode (some c) accepted other = ground arith

validated_unconstrained :
    (input : TableDataAccessInput) (caps : DataAccessColumnCapabilities)
    → validate_table_data_access_input input caps ≡ ok tt
    → version_of input.policy_version == 2 ≡ false
    → input.authenticated.select_constraint ≡ Option.none
unfolding validate_table_data_access_input
validated_unconstrained input caps accepted other =
    constraint_version (version_of input.policy_version) (input.authenticated.mode select)
      input.authenticated.select_constraint (ground arith) other

pub materialized_unconstrained :
    (input : TableDataAccessInput) (options : MaterializeOptions)
    (ps : List MaterializedDataPermission)
    → materialize_table_data_access_policy input options ≡ ok ps
    → version_of input.policy_version == 2 ≡ false
    → input.authenticated.select_constraint ≡ Option.none
unfolding materialize_table_data_access_policy
materialized_unconstrained input options ps made other =
    after_bind (validate_table_data_access_input input options.capabilities) made
      λ nothing accepted _. validated_unconstrained input options.capabilities accepted other

pub materialized_validated :
    (input : TableDataAccessInput) (options : MaterializeOptions)
    (ps : List MaterializedDataPermission)
    → materialize_table_data_access_policy input options ≡ ok ps
    → validate_table_data_access_input input options.capabilities ≡ ok tt
unfolding materialize_table_data_access_policy
materialized_validated input options ps made =
    after_bind {P = validate_table_data_access_input input options.capabilities ≡ ok tt}
      (validate_table_data_access_input input options.capabilities) made λ _ accepted _. accepted

pub validated_version :
    (input : TableDataAccessInput) (caps : DataAccessColumnCapabilities)
    → validate_table_data_access_input input caps ≡ ok tt
    → version_of input.policy_version == 2 ≡ false
    → version_of input.policy_version == 1 ≡ true
unfolding validate_table_data_access_input
validated_version input caps accepted other = ground arith

pub validated_unused :
    (a : AuthenticatedTableAccess)
    → Valid a
    → a.owner_column ≡ Option.none
    → uses_owner_mode a ≡ false
unfolding uses_owner_mode
validated_unused a valid missing =
    ground (arith, valid.owned select, valid.owned insert, valid.owned update, valid.owned delete)

-- Columns that the permissions of a table may be made of.
pub record IsGranted (g : DataAccessColumnGrants) (caps : DataAccessColumnCapabilities)
    : Type 0 where
  pub select_granted : IsGrant g.select caps.readable_columns
  pub insert_granted : IsGrant g.insert caps.insertable_columns
  pub update_granted : IsGrant g.update caps.updateable_columns
  pub anonymous_granted : IsGrant g.anonymous_select caps.readable_columns

module _ (input : TableDataAccessInput) (roles : DataAccessRoleNames)
    (caps : DataAccessColumnCapabilities) (g : DataAccessColumnGrants)
    (granted : IsGranted g caps) where
  options : MaterializeOptions
  options = record { roles = roles; capabilities = caps; column_grants = some g }

  create_authenticated_permission-Returns :
      (op : DataAccessOperation) (mode : AuthenticatedAccessMode) (column : Option String)
      (c : Option SelectConstraint)
      → Returns (create_authenticated_permission op mode caps column (grant_for (some g) op) c)
  unfolding create_authenticated_permission selected_columns grant_for
  create_authenticated_permission-Returns select mode column c =
      >>=-Returns _ _
        (validate_grant_columns_ok g.select caps.readable_columns granted.select_granted) (_, refl)
  create_authenticated_permission-Returns insert mode column c =
      >>=-Returns _ _
        (validate_grant_columns_ok g.insert caps.insertable_columns granted.insert_granted)
        (_, refl)
  create_authenticated_permission-Returns update mode column c =
      >>=-Returns _ _
        (validate_grant_columns_ok g.update caps.updateable_columns granted.update_granted)
        (_, refl)
  create_authenticated_permission-Returns delete mode column c = (_, refl)

  permission_for-Returns :
      (op : DataAccessOperation) (mode : AuthenticatedAccessMode)
      → Returns (permission_for input options op mode)
  unfolding permission_for options
  permission_for-Returns op AuthenticatedAccessMode.none = ([], refl)
  permission_for-Returns op mode =
      >>=-Returns _ _
        (create_authenticated_permission-Returns op mode input.authenticated.owner_column
          (constraint_for op input.authenticated.select_constraint)).1
        (_, refl)

  authenticated_permissions-Returns :
      (ops : List DataAccessOperation) → Returns (authenticated_permissions input options ops)
  unfolding authenticated_permissions
  authenticated_permissions-Returns [] = ([], refl)
  authenticated_permissions-Returns (op ∷ ops) =
      >>=-Returns _ _ (permission_for-Returns op (input.authenticated.mode op)).1
        (>>=-Returns _ _ (authenticated_permissions-Returns ops).1 (_, refl))

  anonymous_permissions-Returns :
      (anonymous : Bool) → Returns (anonymous_permissions anonymous options)
  unfolding anonymous_permissions anonymous_columns options
  anonymous_permissions-Returns false = ([], refl)
  anonymous_permissions-Returns true =
      >>=-Returns _ _
        (validate_grant_columns_ok g.anonymous_select caps.readable_columns
          granted.anonymous_granted)
        (_, refl)

  pub materialize-Returns :
      validate_table_data_access_input input caps ≡ ok tt
      → Returns (
          materialize_table_data_access_policy input
            record { roles = roles; capabilities = caps; column_grants = some g })
  unfolding materialize_table_data_access_policy options
  materialize-Returns accepted = >>=-Returns _ _ accepted (
      >>=-Returns _ _ (authenticated_permissions-Returns operations).1
        (>>=-Returns _ _ (anonymous_permissions-Returns input.anonymous_select).1 (_, refl)))

-- The owner column of an access is there for its columns.
pub record OwnerFits (a : AuthenticatedTableAccess) (caps : DataAccessColumnCapabilities)
    : Type 0 where
  pub column : String
  pub named : a.owner_column ≡ some column
  pub nonempty : str_eq column "" ≡ false
  pub readable : includes caps.readable_columns column ≡ true
  pub insertable : is_owner (a.mode insert) ≡ true → includes caps.insertable_columns column ≡ true

validate_owner_column_fits :
    (a : AuthenticatedTableAccess) (caps : DataAccessColumnCapabilities)
    → OwnerFits a caps
    → validate_owner_column (a.mode insert) caps a.owner_column ≡ ok tt
unfolding validate_owner_column
validate_owner_column_fits a caps fits =
    ground (arith, fits.named, fits.nonempty, fits.readable, fits.insertable)

validate_owner_fits :
    (a : AuthenticatedTableAccess) (caps : DataAccessColumnCapabilities)
    → (uses_owner_mode a ≡ true → OwnerFits a caps)
    → validate_owner a caps ≡ ok tt
unfolding validate_owner
validate_owner_fits a caps fits = elim (Bool-cases (uses_owner_mode a)) [
  | inl uses ↦ ground (arith, uses, validate_owner_column_fits a caps (fits uses))
  | inr unused ↦ ground (arith, unused)
]

validate_modes_supported :
    (mode : DataAccessOperation → AuthenticatedAccessMode) (ops : List DataAccessOperation)
    → ((op : DataAccessOperation) → is_supported (mode op) ≡ true)
    → validate_modes mode ops ≡ ok tt
unfolding validate_modes
validate_modes_supported mode [] supported = refl
validate_modes_supported mode (op ∷ ops) supported =
    ground (arith, supported op, validate_modes_supported mode ops supported)

pub validate_unconstrained :
    (input : TableDataAccessInput) (caps : DataAccessColumnCapabilities)
    → version_of input.policy_version == 1 ≡ true
    → ((op : DataAccessOperation) → is_supported (input.authenticated.mode op) ≡ true)
    → input.authenticated.select_constraint ≡ Option.none
    → (uses_owner_mode input.authenticated ≡ true → OwnerFits input.authenticated caps)
    → validate_table_data_access_input input caps ≡ ok tt
unfolding validate_table_data_access_input validate_constraint
validate_unconstrained input caps first supported free fits = ground (
  arith,
  validate_modes_supported input.authenticated.mode operations supported,
  first,
  free,
  validate_owner_fits input.authenticated caps fits,
)
