-- ===== src/DataAccess/Managed/Reconcile/Narrow.antt =====
-- The rows that previewPolicyReconcile opens, beside those of the baseline.
use mathlib.Core.Option.{Option, some}
use druvia.Prelude.{
  ℕ, ◌≡◌, ◌≢◌, refl, sym, ◌∙◌, ap, subst, inl, inr, ◌==◌, String, eq_iff, Bool, Bool-cases, true,
  false, ◌||◌, not, List, ok, map_error, map_error_ok, ok_injective, after_bind, after_guard, arith,
}
use druvia.DataAccess.Types.{
  AuthenticatedAccessMode, all, owner, DataAccessOperation, select, insert, update, delete,
  AuthenticatedTableAccess, TableDataAccessInput, DataAccessColumnCapabilities, DataAccessRoleNames,
  MaterializeOptions, MaterializedDataPermission, DataAccessColumnGrants,
}
use druvia.DataAccess.Policy.{
  validate_table_data_access_input, operations, uses_owner_mode, version_of, is_owner,
}
use druvia.DataAccess.Policy.Materialize.{materialize_table_data_access_policy}
use druvia.DataAccess.Policy.Materialize.Rows.{
  Row, allowed, policy_allows, mode_allows, owner_holds, select_holds,
}
use druvia.DataAccess.Policy.Materialize.Sound.{materialize_opens_policy, HasTwoColumns}
use druvia.DataAccess.Policy.Materialize.Accepts.{materialized_unconstrained}
use druvia.DataAccess.Managed.{
  validate_reconcile_policy_transition, validate_transition_modes, mode_eq, cannot_broaden, is_none,
  column_eq, materialize_reconcile_grants, normalize_column_grants_for_policy,
}
use druvia.DataAccess.Managed.Reconcile.{
  ManagedPolicyRecord, ReconcilePreviewInput, ReconcileTarget, target_policy,
  preview_policy_reconcile, preview_run, target_grants, same_digest, validate_column_grant_modes,
  dependency_unavailable, policy_managed, grants_managed, dependency_changed, invalid_transition,
  invalid_policy,
}

-- What an accepted change of the policy is.
record Narrower (old new : TableDataAccessInput) : Type 0 where
  kept_mode :
      (op : DataAccessOperation)
      → (is_none (new.authenticated.mode op)
          || mode_eq (new.authenticated.mode op) (old.authenticated.mode op))
        ≡ true
  kept_anonymous : (not new.anonymous_select || old.anonymous_select) ≡ true
  kept_owner :
      (op : DataAccessOperation)
      → is_owner (new.authenticated.mode op) ≡ true
      → column_eq new.authenticated.owner_column old.authenticated.owner_column ≡ true

module _ (old new : TableDataAccessInput)
    (accepted : validate_reconcile_policy_transition old new ≡ ok tt) where
  passed_transition :
      (validate_transition_modes old.authenticated.mode new.authenticated.mode operations ≡ ok tt)
      × ((not new.anonymous_select || old.anonymous_select) ≡ true)
      × ((not (uses_owner_mode new.authenticated)
            || column_eq new.authenticated.owner_column old.authenticated.owner_column)
          ≡ true)
  unfolding validate_reconcile_policy_transition
  passed_transition = (ground arith, ground arith, ground arith)

  mode_test : DataAccessOperation → Bool
  mode_test op =
      is_none (new.authenticated.mode op)
      || mode_eq (new.authenticated.mode op) (old.authenticated.mode op)

  kept_mode_of : (op : DataAccessOperation) → mode_test op ≡ true
  unfolding validate_transition_modes mode_test
  kept_mode_of op =
      after_guard (mode_test select) (cannot_broaden select) passed_transition.0 λ on_select h1.
        after_guard (mode_test insert) (cannot_broaden insert) h1 λ on_insert h2.
          after_guard (mode_test update) (cannot_broaden update) h2 λ on_update h3.
            after_guard (mode_test delete) (cannot_broaden delete) h3 λ on_delete _.
              elim op as (λ k. mode_test k ≡ true) [
                | select ↦ on_select
                | insert ↦ on_insert
                | update ↦ on_update
                | delete ↦ on_delete
              ]

  kept_owner_of :
      (op : DataAccessOperation)
      → is_owner (new.authenticated.mode op) ≡ true
      → column_eq new.authenticated.owner_column old.authenticated.owner_column ≡ true
  unfolding uses_owner_mode
  kept_owner_of select owned = ground (arith, passed_transition.2)
  kept_owner_of op owned = ground (arith, passed_transition.2)

  accepted-Narrower : Narrower old new
  unfolding mode_test
  accepted-Narrower = record {
    kept_mode = kept_mode_of;
    kept_anonymous = passed_transition.1;
    kept_owner = kept_owner_of;
  }

owner_holds_same :
    (row : Row) (p q : Option String)
    → column_eq p q ≡ true
    → owner_holds row p ≡ true
    → owner_holds row q ≡ true
owner_holds_same row Option.none q same holds = absurd cc
owner_holds_same row (some a) Option.none same holds = absurd cc
owner_holds_same row (some a) (some b) same holds = ground (arith, eq_iff a b)

select_holds_none : (row : Row) (op : DataAccessOperation) → select_holds row op Option.none ≡ true
select_holds_none row select = refl
select_holds_none row op = refl

module _ (old new : AuthenticatedTableAccess) (op : DataAccessOperation) (row : Row)
    (free : old.select_constraint ≡ Option.none) where
  mode_allows_closer :
      (n m : AuthenticatedAccessMode)
      → (is_none n || mode_eq n m) ≡ true
      → (is_owner n ≡ true → column_eq new.owner_column old.owner_column ≡ true)
      → mode_allows new op row n ≡ true
      → mode_allows old op row m ≡ true
  mode_allows_closer all all kept column allows = refl
  mode_allows_closer owner owner kept column allows = ground (
    arith,
    column refl,
    free,
    select_holds_none row op,
    owner_holds_same row new.owner_column old.owner_column (column refl),
  )
  mode_allows_closer n m kept column allows = ground arith

Narrower-allows :
    (old new : TableDataAccessInput) (op : DataAccessOperation) (row : Row)
    → Narrower old new
    → old.authenticated.select_constraint ≡ Option.none
    → policy_allows new.authenticated op row ≡ true
    → policy_allows old.authenticated op row ≡ true
unfolding policy_allows
Narrower-allows old new op row narrower free allows =
    mode_allows_closer old.authenticated new.authenticated op row free (new.authenticated.mode op)
      (old.authenticated.mode op) (narrower.kept_mode op) (narrower.kept_owner op) allows

-- What a preview that returned went through.
record Previewed (baseline : ManagedPolicyRecord) (roles : DataAccessRoleNames)
    (caps : DataAccessColumnCapabilities) (input : ReconcilePreviewInput) (done : ReconcileTarget)
    : Type 0 where
  chosen : done.policy ≡ target_policy (baseline.policy_version == 2) baseline caps input.policy
  moved : validate_reconcile_policy_transition baseline.policy done.policy ≡ ok tt
  made :
      materialize_table_data_access_policy done.policy
        record { roles = roles; capabilities = caps; column_grants = some done.column_grants }
      ≡ ok done.permissions

module _ (policy_digest : TableDataAccessInput → String)
    (grants_digest : DataAccessColumnGrants → String) (dependency_current : Bool)
    (baseline : ManagedPolicyRecord) (roles : DataAccessRoleNames)
    (caps : DataAccessColumnCapabilities) (input : ReconcilePreviewInput) (done : ReconcileTarget)
    (returned : preview_policy_reconcile policy_digest grants_digest dependency_current baseline
        roles caps input
      ≡ ok done) where
  returned-Previewed : Previewed baseline roles caps input done
  unfolding preview_policy_reconcile preview_run
  returned-Previewed =
      let version_1 = not (baseline.policy_version == 2) in
      let policy = target_policy (baseline.policy_version == 2) baseline caps input.policy in
      let safe = materialize_reconcile_grants baseline.column_grants caps in
      let grants =
        normalize_column_grants_for_policy policy
          (target_grants (baseline.policy_version == 2) baseline caps input.column_grants) in
      let options : MaterializeOptions = record {
        roles = roles;
        capabilities = caps;
        column_grants = some grants;
      } in
      after_guard (version_1 || baseline.has_dependency) dependency_unavailable returned λ _ h1.
        after_guard (version_1 || same_digest policy_digest input.policy baseline.policy)
          policy_managed h1
          λ _ h2.
            after_bind
              (map_error invalid_transition
                (validate_reconcile_policy_transition baseline.policy policy))
              h2
              λ _ moved h3.
                after_bind (map_error invalid_policy (validate_table_data_access_input policy caps))
                  h3
                  λ _ valid h4.
                    after_guard (version_1 || same_digest grants_digest input.column_grants safe)
                      grants_managed h4
                      λ _ h5.
                        after_bind (validate_column_grant_modes policy grants) h5 λ _ modes h6.
                          after_guard (version_1 || dependency_current) dependency_changed h6
                            λ _ h7.
                              after_bind
                                (map_error invalid_policy
                                  (materialize_table_data_access_policy policy options))
                                h7
                                λ ps made h8.
                                  let at_end = ok_injective h8 in
                                  record {
                                    chosen = ap (λ (t : ReconcileTarget). t.policy) (sym at_end);
                                    moved =
                                        subst
                                          (λ (t : ReconcileTarget).
                                            validate_reconcile_policy_transition baseline.policy
                                              t.policy
                                            ≡ ok tt)
                                          at_end (map_error_ok invalid_transition _ moved);
                                    made =
                                        subst
                                          (λ (t : ReconcileTarget).
                                            materialize_table_data_access_policy t.policy record {
                                              roles = roles;
                                              capabilities = caps;
                                              column_grants = some t.column_grants;
                                            }
                                            ≡ ok t.permissions)
                                          at_end (map_error_ok invalid_policy _ made);
                                  }

  target_managed : baseline.policy_version == 2 ≡ true → done.policy ≡ baseline.policy
  unfolding target_policy
  target_managed managed = ground (arith, returned-Previewed.chosen)

  policy_allows_kept :
      (options : MaterializeOptions) (before : List MaterializedDataPermission)
      → materialize_table_data_access_policy baseline.policy options ≡ ok before
      → baseline.policy_version ≡ version_of baseline.policy.policy_version
      → (op : DataAccessOperation) (row : Row)
      → policy_allows done.policy.authenticated op row ≡ true
      → policy_allows baseline.policy.authenticated op row ≡ true
  policy_allows_kept options before made stored op row allows =
      elim (Bool-cases (version_of baseline.policy.policy_version == 2)) [
        | inl managed ↦
            subst (λ (p : TableDataAccessInput). policy_allows p.authenticated op row ≡ true)
              (target_managed (ap (λ (n : ℕ). n == 2) stored ∙ managed)) allows
        | inr free ↦
            Narrower-allows baseline.policy done.policy op row
              (accepted-Narrower baseline.policy done.policy returned-Previewed.moved)
              (materialized_unconstrained baseline.policy options before made free) allows
      ]

not_or : (a b : Bool) → (a ≡ true → b ≡ true) → (not a || b) ≡ true
not_or true b step = step refl
not_or false b step = refl

-- A reconciliation that is previewed makes permissions that open no row, to either role, beyond the
-- ones that the permissions of its baseline open, whichever policy the request asks for. The baseline is
-- one that permissions are made from, of the version that is stored; the roles differ, and so do the
-- actor and the allow column of a constraint of either policy.
pub preview_policy_reconcile-narrows :
    (policy_digest : TableDataAccessInput → String)
    (grants_digest : DataAccessColumnGrants → String) (dependency_current : Bool)
    (baseline : ManagedPolicyRecord) (roles : DataAccessRoleNames)
    (caps : DataAccessColumnCapabilities) (input : ReconcilePreviewInput) (done : ReconcileTarget)
    (old : DataAccessColumnCapabilities) (before : List MaterializedDataPermission)
    (op : DataAccessOperation) (row : Row)
    → preview_policy_reconcile policy_digest grants_digest dependency_current baseline roles caps
        input
      ≡ ok done
    → materialize_table_data_access_policy baseline.policy
        record { roles = roles; capabilities = old; column_grants = some baseline.column_grants }
      ≡ ok before
    → baseline.policy_version ≡ version_of baseline.policy.policy_version
    → HasTwoColumns baseline.policy.authenticated.select_constraint
    → HasTwoColumns done.policy.authenticated.select_constraint
    → roles.authenticated ≢ roles.anonymous
    → ((not (allowed done.permissions roles.authenticated op row)
          || allowed before roles.authenticated op row)
        ≡ true)
      × ((not (allowed done.permissions roles.anonymous op row)
            || allowed before roles.anonymous op row)
          ≡ true)
preview_policy_reconcile-narrows policy_digest grants_digest dependency_current baseline roles caps
      input done old before op row returned made stored two two' differ =
    let was : MaterializeOptions = record {
      roles = roles;
      capabilities = old;
      column_grants = some baseline.column_grants;
    } in
    let is : MaterializeOptions = record {
      roles = roles;
      capabilities = caps;
      column_grants = some done.column_grants;
    } in
    let previewed =
      returned-Previewed policy_digest grants_digest dependency_current baseline roles caps input
        done returned in
    let opened = materialize_opens_policy baseline.policy was before op row made two differ in
    let opens =
      materialize_opens_policy done.policy is done.permissions op row previewed.made two' differ in
    let narrower = accepted-Narrower baseline.policy done.policy previewed.moved in
    (
      not_or _ _ λ allows.
          opened.0
          ∙ policy_allows_kept policy_digest grants_digest dependency_current baseline roles caps
              input done returned was before made stored op row (sym opens.0 ∙ allows),
      ground (arith, opened.1, opens.1, narrower.kept_anonymous),
    )
