-- ===== src/DataAccess/Managed/Extend/Examples.antt =====
-- A projection whose readers get one more column, and columns of a table that changed.
use mathlib.Core.Option.{some}
use druvia.Prelude.{
  String, ◌≡◌, refl, true, false, ◌&&◌, ◌||◌, not, List, [], ◌∷◌, includes, or_else, ok,
}
use druvia.DataAccess.Types.{owner, DataAccessColumnCapabilities, DataAccessColumnGrants}
use druvia.DataAccess.Policy.{is_owner, has_duplicate}
use druvia.DataAccess.Policy.Sorting.{IsGrant}
use druvia.DataAccess.Policy.Materialize.Accepts.{IsGranted}
use druvia.DataAccess.Managed.{build_column_capability_drift}
use druvia.DataAccess.Managed.Drift.{build_column_capability_drift_exact}
use druvia.DataAccess.Managed.Extend.{
  ProjectionGrantAdditions, ProjectionModes, check_extension, extend_projection_column_grants,
}
use druvia.DataAccess.Managed.Extend.Granted.{extend_projection_column_grants-IsGranted}

abbrev columns_of : List String → DataAccessColumnCapabilities
columns_of columns = record {
  readable_columns = columns;
  insertable_columns = columns;
  updateable_columns = columns;
}

abbrev now : DataAccessColumnCapabilities
now = columns_of ("author" ∷ "body" ∷ "title" ∷ [])

abbrev grants_of : List String → List String → DataAccessColumnGrants
grants_of read inserted = record {
  select = read;
  insert = inserted;
  update = [];
  anonymous_select = [];
}

abbrev modes : ProjectionModes
modes = record { select = owner; insert = owner; owner_column = some "author" }

abbrev additions : ProjectionGrantAdditions
additions = record { select = some ("title" ∷ []); insert = some ("title" ∷ []); other_keys = [] }

granted : IsGranted (grants_of ("author" ∷ []) ("body" ∷ [])) now
unfolding IsGrant has_duplicate
granted = record {
  select_granted = (refl, refl);
  insert_granted = (refl, refl);
  update_granted = (refl, refl);
  anonymous_granted = (refl, refl);
}

extended :
    extend_projection_column_grants (grants_of ("author" ∷ []) ("body" ∷ [])) now modes additions
    ≡ ok (grants_of ("author" ∷ "title" ∷ []) ("body" ∷ "title" ∷ []))
unfolding extend_projection_column_grants check_extension has_duplicate
extended = refl

extend_projection_column_grants-IsGranted_example :
    IsGranted (grants_of ("author" ∷ "title" ∷ []) ("body" ∷ "title" ∷ [])) now
    × ((c : String)
        → includes ("author" ∷ "title" ∷ []) c
          ≡ (includes ("author" ∷ []) c || includes (or_else additions.select []) c))
    × ((c : String)
        → includes ("body" ∷ "title" ∷ []) c
          ≡ (includes ("body" ∷ []) c || includes (or_else additions.insert []) c))
    × ((grants_of ("author" ∷ "title" ∷ []) ("body" ∷ "title" ∷ [])).update ≡ [])
    × ((grants_of ("author" ∷ "title" ∷ []) ("body" ∷ "title" ∷ [])).anonymous_select ≡ [])
    × ((not (is_owner modes.insert && includes ("body" ∷ "title" ∷ []) "author")
          || includes ("body" ∷ []) "author")
        ≡ true)
extend_projection_column_grants-IsGranted_example =
    extend_projection_column_grants-IsGranted (grants_of ("author" ∷ []) ("body" ∷ [])) now modes
      additions (grants_of ("author" ∷ "title" ∷ []) ("body" ∷ "title" ∷ [])) extended granted

build_column_capability_drift_exact_example :
    (includes (build_column_capability_drift (columns_of ("draft" ∷ [])) now).added_readable "title"
      ≡ true)
    × (includes
          (build_column_capability_drift (columns_of ("draft" ∷ [])) now).added_insertable
          "title"
        ≡ true)
    × (includes
          (build_column_capability_drift (columns_of ("draft" ∷ [])) now).added_updateable
          "title"
        ≡ true)
    × (includes
          (build_column_capability_drift (columns_of ("draft" ∷ [])) now).removed_or_restricted
          "title"
        ≡ false)
build_column_capability_drift_exact_example =
    build_column_capability_drift_exact (columns_of ("draft" ∷ [])) now "title"
