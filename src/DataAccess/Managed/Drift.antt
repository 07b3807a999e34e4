-- ===== src/DataAccess/Managed/Drift.antt =====
-- The drift of the columns of a table in data-access-managed-policy.ts.
use druvia.Prelude.{◌≡◌, String, ◌&&◌, ◌||◌, not, ◌++◌, includes, includes-append, arith}
use druvia.DataAccess.Types.{DataAccessColumnCapabilities}
use druvia.DataAccess.Managed.{difference, build_column_capability_drift}
use druvia.DataAccess.Managed.Columns.{includes-difference, includes-unique_sorted}

-- A column is reported as added to the readable, insertable or updateable columns exactly when it is
-- among the present ones and not among those of the baseline, and as removed or restricted exactly when
-- it was readable, insertable or updateable and no longer is so.
pub build_column_capability_drift_exact :
    (baseline current : DataAccessColumnCapabilities) (c : String)
    → (includes (build_column_capability_drift baseline current).added_readable c
        ≡ (not (includes baseline.readable_columns c) && includes current.readable_columns c))
      × (includes (build_column_capability_drift baseline current).added_insertable c
          ≡ (not (includes baseline.insertable_columns c) && includes current.insertable_columns c))
      × (includes (build_column_capability_drift baseline current).added_updateable c
          ≡ (not (includes baseline.updateable_columns c) && includes current.updateable_columns c))
      × (includes (build_column_capability_drift baseline current).removed_or_restricted c ≡ (
          (not (includes current.readable_columns c) && includes baseline.readable_columns c)
          || ((not (includes current.insertable_columns c)
                && includes baseline.insertable_columns c)
              || (not (includes current.updateable_columns c)
                  && includes baseline.updateable_columns c))))
unfolding build_column_capability_drift
build_column_capability_drift_exact baseline current c =
    let read = difference baseline.readable_columns current.readable_columns in
    let inserted = difference baseline.insertable_columns current.insertable_columns in
    let updated = difference baseline.updateable_columns current.updateable_columns in
    (
      includes-difference current.readable_columns baseline.readable_columns c,
      includes-difference current.insertable_columns baseline.insertable_columns c,
      includes-difference current.updateable_columns baseline.updateable_columns c,
      ground (
        arith,
        includes-unique_sorted (read ++ (inserted ++ updated)) c,
        includes-append read (inserted ++ updated) c,
        includes-append inserted updated c,
        includes-difference baseline.readable_columns current.readable_columns c,
        includes-difference baseline.insertable_columns current.insertable_columns c,
        includes-difference baseline.updateable_columns current.updateable_columns c,
      ),
    )
