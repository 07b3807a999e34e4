-- ===== src/DataAccess/Managed/Reconcile.antt =====
-- previewPolicyReconcile of apps/api/src/modules/data-access/data-access-policy-operation.service.ts:
-- what the preview computes of the baseline that it loaded, once the table is known to require a
-- refresh. The classification, the snapshots of the present permissions and the stored operation are
-- left out.
pub mod Narrow
pub mod Total
pub mod Grants
pub mod Safe
use mathlib.Core.Option
use mathlib.Core.Option.{Option, some}
use druvia.Prelude.{
  ℕ, ◌==◌, String, str_eq, if◌then◌else◌, Bool, true, false, ◌&&◌, ◌||◌, not, List, [], ◌∷◌,
  includes, Result, ok, err, ◌>>=◌, ◌>>◌, guard, map_error, or_else, is_empty,
}
use druvia.DataAccess.Types.{
  AuthenticatedAccessMode, owner, DataAccessOperation, select, insert, update,
  AuthenticatedTableAccess, TableDataAccessInput, DataAccessColumnCapabilities, DataAccessRoleNames,
  DataAccessColumnGrants, MaterializeOptions, MaterializedDataPermission, DataAccessValidationError,
}
use druvia.DataAccess.Policy.{
  is_owner, uses_owner_mode, version_of, validate_table_data_access_input,
}
use druvia.DataAccess.Policy.Materialize.{materialize_table_data_access_policy}
use druvia.DataAccess.Managed.{
  ReconcileError, is_none, normalize_column_grants_for_policy, materialize_reconcile_grants,
  validate_reconcile_policy_transition,
}

-- The part of a stored policy that the preview reads; `has_dependency` is whether both the snapshot
-- and the digest of its dependency are there.
pub record ManagedPolicyRecord : Type 0 where
  pub policy_version : ℕ
  pub policy : TableDataAccessInput
  pub column_grants : DataAccessColumnGrants
  pub has_dependency : Bool

pub record ReconcilePreviewInput : Type 0 where
  pub policy : Option TableDataAccessInput
  pub column_grants : Option DataAccessColumnGrants

pub data PreviewError : Type 0 where
  dependency_unavailable policy_managed grants_managed dependency_changed : PreviewError
  invalid_transition : ReconcileError → PreviewError
  invalid_policy : DataAccessValidationError → PreviewError
  closed_grants : DataAccessOperation → PreviewError
  closed_anonymous_grants : PreviewError

-- What the operation that is stored holds of the target; the permissions are those that
-- createPermissionSnapshot is given, before it sorts them.
pub record ReconcileTarget : Type 0 where
  pub policy : TableDataAccessInput
  pub column_grants : DataAccessColumnGrants
  pub permissions : List MaterializedDataPermission

unfoldable pub close_owner : AuthenticatedAccessMode → AuthenticatedAccessMode
close_owner owner = AuthenticatedAccessMode.none
close_owner mode = mode

unfoldable pub close_insert :
    (DataAccessOperation → AuthenticatedAccessMode) → DataAccessOperation → AuthenticatedAccessMode
close_insert mode insert = AuthenticatedAccessMode.none
close_insert mode op = mode op

-- The modes that the columns of a table still allow, when `column` is the owner column.
unfoldable pub safe_modes :
    (DataAccessOperation → AuthenticatedAccessMode)
    → String
    → DataAccessColumnCapabilities
    → DataAccessOperation
    → AuthenticatedAccessMode
unfolding close_owner close_insert
safe_modes mode column caps op =
    if not (includes caps.readable_columns column)
    then close_owner (mode op)
    else if is_owner (mode insert) && not (includes caps.insertable_columns column)
    then close_insert mode op
    else mode op

unfoldable pub clear_unused_owner : AuthenticatedTableAccess → AuthenticatedTableAccess
unfolding uses_owner_mode
clear_unused_owner a = if uses_owner_mode a then a else record a { owner_column = Option.none }

unfoldable pub safe_access :
    AuthenticatedTableAccess
    → Option String
    → DataAccessColumnCapabilities
    → AuthenticatedTableAccess
unfolding safe_modes clear_unused_owner
safe_access a Option.none caps = a
safe_access a (some column) caps =
    if str_eq column ""
    then a
    else clear_unused_owner (record a { mode = safe_modes a.mode column caps })

unfoldable pub materialize_safe_reconcile_policy :
    TableDataAccessInput → DataAccessColumnCapabilities → TableDataAccessInput
unfolding safe_access version_of
materialize_safe_reconcile_policy baseline caps = record {
  policy_version = some (version_of baseline.policy_version);
  authenticated = safe_access baseline.authenticated baseline.authenticated.owner_column caps;
  anonymous_select = baseline.anonymous_select;
}

unfoldable pub validate_column_grant_modes :
    TableDataAccessInput → DataAccessColumnGrants → Result PreviewError (Unit {0})
validate_column_grant_modes policy grants = do
  guard (not (is_none (policy.authenticated.mode select)) || is_empty grants.select)
      (closed_grants select)
  guard (not (is_none (policy.authenticated.mode insert)) || is_empty grants.insert)
      (closed_grants insert)
  guard (not (is_none (policy.authenticated.mode update)) || is_empty grants.update)
      (closed_grants update)
  guard (policy.anonymous_select || is_empty grants.anonymous_select) closed_anonymous_grants

-- `managed` is projectionManaged: the baseline has a policy of version 2.
unfoldable pub target_policy :
    Bool
    → ManagedPolicyRecord
    → DataAccessColumnCapabilities
    → Option TableDataAccessInput
    → TableDataAccessInput
unfolding materialize_safe_reconcile_policy
target_policy managed baseline caps asked =
    if managed
    then baseline.policy
    else or_else asked (materialize_safe_reconcile_policy baseline.policy caps)

unfoldable pub target_grants :
    Bool
    → ManagedPolicyRecord
    → DataAccessColumnCapabilities
    → Option DataAccessColumnGrants
    → DataAccessColumnGrants
unfolding materialize_reconcile_grants
target_grants managed baseline caps asked =
    let safe = materialize_reconcile_grants baseline.column_grants caps in
    if managed then safe else or_else asked safe

-- A value that the input gives has the digest of the one it is compared with.
abbrev pub same_digest {ℓ} : {A : Type ℓ} → (A → String) → Option A → A → Bool
same_digest digest Option.none other = true
same_digest digest (some value) other = str_eq (digest value) (digest other)

-- `policy_digest` and `grants_digest` are stableDigest, the hash of the JSON text with sorted keys,
-- which is not made here; `dependency_current` is what assertProjectionDependencyCurrent finds.
module _ (policy_digest : TableDataAccessInput → String)
    (grants_digest : DataAccessColumnGrants → String) (dependency_current : Bool) where
  unfoldable pub preview_run :
      Bool
      → ManagedPolicyRecord
      → DataAccessRoleNames
      → DataAccessColumnCapabilities
      → ReconcilePreviewInput
      → Result PreviewError ReconcileTarget
  unfolding validate_reconcile_policy_transition materialize_reconcile_grants
      normalize_column_grants_for_policy validate_column_grant_modes target_policy target_grants
  preview_run managed baseline roles caps input = do
    let version_1 = not managed
    guard (version_1 || baseline.has_dependency) dependency_unavailable
    guard (version_1 || same_digest policy_digest input.policy baseline.policy) policy_managed
    let policy = target_policy managed baseline caps input.policy
    map_error invalid_transition (validate_reconcile_policy_transition baseline.policy policy)
    map_error invalid_policy (validate_table_data_access_input policy caps)
    let safe = materialize_reconcile_grants baseline.column_grants caps
    guard (version_1 || same_digest grants_digest input.column_grants safe) grants_managed
    let grants =
        normalize_column_grants_for_policy policy
          (target_grants managed baseline caps input.column_grants)
    validate_column_grant_modes policy grants
    guard (version_1 || dependency_current) dependency_changed
    permissions ← map_error invalid_policy (
        materialize_table_data_access_policy policy
          record { roles = roles; capabilities = caps; column_grants = some grants })
    ok record { policy = policy; column_grants = grants; permissions = permissions }

  unfoldable pub preview_policy_reconcile :
      ManagedPolicyRecord
      → DataAccessRoleNames
      → DataAccessColumnCapabilities
      → ReconcilePreviewInput
      → Result PreviewError ReconcileTarget
  unfolding preview_run
  preview_policy_reconcile baseline roles caps input =
      preview_run (baseline.policy_version == 2) baseline roles caps input
