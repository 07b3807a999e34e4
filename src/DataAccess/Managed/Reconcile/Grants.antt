-- ===== src/DataAccess/Managed/Reconcile/Grants.antt =====
-- The columns that normalizeColumnGrantsForPolicy keeps of reconciled ones.
use mathlib.Core.Option.{Option}
use druvia.Prelude.{
  ◌≡◌, refl, String, opt_is, if◌then◌else◌, Bool, true, false, ◌||◌, not, List, [], ok, is_empty,
}
use druvia.DataAccess.Types.{
  AuthenticatedAccessMode, owner, select, insert, update, TableDataAccessInput,
  DataAccessColumnCapabilities, DataAccessColumnGrants,
}
use druvia.DataAccess.Policy.Sorting.{IsGrant}
use druvia.DataAccess.Policy.Materialize.Accepts.{IsGranted}
use druvia.DataAccess.Managed.{
  is_none, normalize_column_grants_for_policy, normalize_read, normalize_write,
  materialize_reconcile_grants,
}
use druvia.DataAccess.Managed.Columns.{intersection-IsGrant, select-IsGrant, empty-IsGrant}
use druvia.DataAccess.Managed.Reconcile.{validate_column_grant_modes}

-- The columns of a normalized grant.
normalize_read-IsGrant :
    (mode : AuthenticatedAccessMode) (columns allowed : List String)
    → IsGrant columns allowed
    → IsGrant (normalize_read mode columns) allowed
unfolding normalize_read
normalize_read-IsGrant AuthenticatedAccessMode.none columns allowed granted = empty-IsGrant allowed
normalize_read-IsGrant mode columns allowed granted = granted

normalize_write-IsGrant :
    (column : Option String) (mode : AuthenticatedAccessMode) (columns allowed : List String)
    → IsGrant columns allowed
    → IsGrant (normalize_write column mode columns) allowed
unfolding normalize_write
normalize_write-IsGrant column AuthenticatedAccessMode.none columns allowed granted =
    empty-IsGrant allowed
normalize_write-IsGrant column owner columns allowed granted =
    select-IsGrant (λ c. not (opt_is column c)) columns allowed granted
normalize_write-IsGrant column mode columns allowed granted = granted

normalize_anonymous-IsGrant :
    (opened : Bool) (columns allowed : List String)
    → IsGrant columns allowed
    → IsGrant (if opened then columns else []) allowed
normalize_anonymous-IsGrant true columns allowed granted = granted
normalize_anonymous-IsGrant false columns allowed granted = empty-IsGrant allowed

pub reconciled-IsGranted :
    (policy : TableDataAccessInput) (g : DataAccessColumnGrants)
    (caps : DataAccessColumnCapabilities)
    → IsGranted
        (normalize_column_grants_for_policy policy (materialize_reconcile_grants g caps))
        caps
unfolding normalize_column_grants_for_policy materialize_reconcile_grants
reconciled-IsGranted policy g caps =
    let a = policy.authenticated in
    record {
      select_granted =
          normalize_read-IsGrant (a.mode select) _ _
            (intersection-IsGrant g.select caps.readable_columns);
      insert_granted =
          normalize_write-IsGrant a.owner_column (a.mode insert) _ _
            (intersection-IsGrant g.insert caps.insertable_columns);
      update_granted =
          normalize_write-IsGrant a.owner_column (a.mode update) _ _
            (intersection-IsGrant g.update caps.updateable_columns);
      anonymous_granted =
          normalize_anonymous-IsGrant policy.anonymous_select _ _
            (intersection-IsGrant g.anonymous_select caps.readable_columns);
    }

-- A normalized grant keeps no column of a closed operation.
normalize_read_closed :
    (mode : AuthenticatedAccessMode) (columns : List String)
    → (not (is_none mode) || is_empty (normalize_read mode columns)) ≡ true
unfolding normalize_read
normalize_read_closed AuthenticatedAccessMode.none columns = refl
normalize_read_closed mode columns = refl

normalize_write_closed :
    (column : Option String) (mode : AuthenticatedAccessMode) (columns : List String)
    → (not (is_none mode) || is_empty (normalize_write column mode columns)) ≡ true
unfolding normalize_write
normalize_write_closed column AuthenticatedAccessMode.none columns = refl
normalize_write_closed column mode columns = refl

normalize_anonymous_closed :
    (opened : Bool) (columns : List String)
    → (opened || is_empty (if opened then columns else [])) ≡ true
normalize_anonymous_closed true columns = refl
normalize_anonymous_closed false columns = refl

pub validate_column_grant_modes_normalized :
    (policy : TableDataAccessInput) (g : DataAccessColumnGrants)
    → validate_column_grant_modes policy (normalize_column_grants_for_policy policy g) ≡ ok tt
unfolding validate_column_grant_modes normalize_column_grants_for_policy
validate_column_grant_modes_normalized policy g =
    let a = policy.authenticated in
    let on_select = normalize_read_closed (a.mode select) g.select in
    let on_insert = normalize_write_closed a.owner_column (a.mode insert) g.insert in
    let on_update = normalize_write_closed a.owner_column (a.mode update) g.update in
    let anonymous = normalize_anonymous_closed policy.anonymous_select g.anonymous_select in
    rw (on_select, on_insert, on_update, anonymous)
