-- ===== src/DataAccess/Managed/Reconcile/Total.antt =====
-- previewPolicyReconcile for a request that gives no policy and no columns.
use mathlib.Core.Option.{Option, some}
use druvia.Prelude.{
  ℕ, ◌≡◌, refl, sym, ap, subst, ◌∙◌, ◌==◌, String, opt_is, Bool, true, false, List, [], ◌∷◌, ok,
  Returns, >>=-Returns, map_error, arith,
}
use druvia.DataAccess.Types.{
  AuthenticatedAccessMode, DataAccessOperation, TableDataAccessInput, DataAccessColumnCapabilities,
  DataAccessColumnGrants, DataAccessRoleNames, MaterializeOptions, MaterializedDataPermission,
}
use druvia.DataAccess.Policy.{validate_table_data_access_input, operations, version_of}
use druvia.DataAccess.Policy.Materialize.Accepts.{
  materialized_validated, materialized_unconstrained, validated_version, validated_unused,
  validate_unconstrained, materialize-Returns,
}
use druvia.DataAccess.Policy.Materialize.Valid.{Valid, validate-Valid}
use druvia.DataAccess.Policy.Materialize.{materialize_table_data_access_policy}
use druvia.DataAccess.Managed.{
  validate_reconcile_policy_transition, validate_transition_modes,
  normalize_column_grants_for_policy, materialize_reconcile_grants,
}
use druvia.DataAccess.Managed.Reconcile.Grants.{
  reconciled-IsGranted, validate_column_grant_modes_normalized,
}
use druvia.DataAccess.Managed.Reconcile.{
  ManagedPolicyRecord, ReconcilePreviewInput, materialize_safe_reconcile_policy,
  preview_policy_reconcile, preview_run, target_policy, target_grants, invalid_transition,
  invalid_policy,
}
use druvia.DataAccess.Managed.Reconcile.Safe.{IsSafe, kept_mode, safe_access-IsSafe, supported_kept}

-- A safe policy with the same anonymous access passes the check of the transition.
validate_transition_modes_kept :
    (old new : DataAccessOperation → AuthenticatedAccessMode) (ops : List DataAccessOperation)
    → ((op : DataAccessOperation) → kept_mode (new op) (old op) ≡ true)
    → validate_transition_modes old new ops ≡ ok tt
unfolding validate_transition_modes kept_mode
validate_transition_modes_kept old new [] kept = refl
validate_transition_modes_kept old new (op ∷ ops) kept =
    ground (arith, kept op, validate_transition_modes_kept old new ops kept)

pub safe_transition :
    (old new : TableDataAccessInput) (caps : DataAccessColumnCapabilities)
    → IsSafe old.authenticated new.authenticated caps
    → new.anonymous_select ≡ old.anonymous_select
    → validate_reconcile_policy_transition old new ≡ ok tt
unfolding validate_reconcile_policy_transition
safe_transition old new caps safe same =
    let modes =
      validate_transition_modes_kept old.authenticated.mode new.authenticated.mode operations
        safe.kept in
    ground (arith, modes, same, safe.column_kept, safe.column_used)

module _ (policy_digest : TableDataAccessInput → String)
    (grants_digest : DataAccessColumnGrants → String) (dependency_current : Bool)
    (baseline : ManagedPolicyRecord) (roles : DataAccessRoleNames)
    (caps old : DataAccessColumnCapabilities) (before : List MaterializedDataPermission)
    (made : materialize_table_data_access_policy baseline.policy
        record { roles = roles; capabilities = old; column_grants = some baseline.column_grants }
      ≡ ok before)
    (stored : baseline.policy_version ≡ version_of baseline.policy.policy_version)
    (unmanaged : baseline.policy_version == 2 ≡ false)
    (named : opt_is baseline.policy.authenticated.owner_column "" ≡ false) where
  abbrev options : MaterializeOptions
  options = record {
    roles = roles;
    capabilities = old;
    column_grants = some baseline.column_grants;
  }

  first_version : version_of baseline.policy.policy_version == 2 ≡ false
  first_version = ap (λ (n : ℕ). n == 2) (sym stored) ∙ unmanaged

  accepted : validate_table_data_access_input baseline.policy old ≡ ok tt
  accepted = materialized_validated baseline.policy options before made

  valid : Valid baseline.policy.authenticated
  valid = validate-Valid baseline.policy old accepted

  safe : TableDataAccessInput
  safe = materialize_safe_reconcile_policy baseline.policy caps

  is_safe : IsSafe baseline.policy.authenticated safe.authenticated caps
  unfolding safe materialize_safe_reconcile_policy
  is_safe =
      safe_access-IsSafe baseline.policy.authenticated caps
        baseline.policy.authenticated.owner_column refl named
        (validated_unused baseline.policy.authenticated valid)

  safe_accepted : validate_table_data_access_input safe caps ≡ ok tt
  unfolding safe materialize_safe_reconcile_policy version_of
  safe_accepted =
      validate_unconstrained safe caps
        (validated_version baseline.policy old accepted first_version)
        (λ op.
          supported_kept (safe.authenticated.mode op) (baseline.policy.authenticated.mode op)
            (is_safe.kept op) (valid.supported op))
        (is_safe.constraint_kept
          ∙ materialized_unconstrained baseline.policy options before made first_version)
        is_safe.column_fits

  kept_grants : DataAccessColumnGrants
  kept_grants =
      normalize_column_grants_for_policy safe
        (materialize_reconcile_grants baseline.column_grants caps)

  run-Returns : Returns (
      preview_run policy_digest grants_digest dependency_current false baseline roles caps
        record { policy = Option.none; column_grants = Option.none })
  unfolding preview_run target_policy target_grants safe kept_grants
  run-Returns =
      >>=-Returns
        (map_error invalid_transition (validate_reconcile_policy_transition baseline.policy safe)) _
        (ap (map_error invalid_transition) (safe_transition baseline.policy safe caps is_safe refl))
        (>>=-Returns (map_error invalid_policy (validate_table_data_access_input safe caps)) _
          (ap (map_error invalid_policy) safe_accepted)
          (>>=-Returns _ _
            (validate_column_grant_modes_normalized safe
              (materialize_reconcile_grants baseline.column_grants caps))
            (>>=-Returns _ _
              (ap (map_error invalid_policy)
                (materialize-Returns safe roles caps kept_grants
                  (reconciled-IsGranted safe baseline.column_grants caps) safe_accepted).1)
              (_, refl))))

-- A reconciliation for which the request gives no policy and no columns returns a target, whatever
-- the columns of the table have become, when its baseline is one that permissions are made from, of the
-- version that is stored, which is not 2, and its owner column is not the empty text.
pub preview_policy_reconcile-Returns :
    (policy_digest : TableDataAccessInput → String)
    (grants_digest : DataAccessColumnGrants → String) (dependency_current : Bool)
    (baseline : ManagedPolicyRecord) (roles : DataAccessRoleNames)
    (caps old : DataAccessColumnCapabilities) (before : List MaterializedDataPermission)
    → materialize_table_data_access_policy baseline.policy
        record { roles = roles; capabilities = old; column_grants = some baseline.column_grants }
      ≡ ok before
    → baseline.policy_version ≡ version_of baseline.policy.policy_version
    → baseline.policy_version == 2 ≡ false
    → opt_is baseline.policy.authenticated.owner_column "" ≡ false
    → Returns (
        preview_policy_reconcile policy_digest grants_digest dependency_current baseline roles caps
          record { policy = Option.none; column_grants = Option.none })
unfolding preview_policy_reconcile
preview_policy_reconcile-Returns policy_digest grants_digest dependency_current baseline roles caps
      old before made stored unmanaged named =
    let asked : ReconcilePreviewInput = record {
      policy = Option.none;
      column_grants = Option.none;
    } in
    subst
      (λ (managed : Bool). Returns (
        preview_run policy_digest grants_digest dependency_current managed baseline roles caps
          asked))
      (sym unmanaged)
      (run-Returns policy_digest grants_digest dependency_current baseline roles caps old before
        made stored unmanaged named)
