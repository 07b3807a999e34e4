-- ===== src/DataAccess/Managed/Extend/Granted.antt =====
-- The columns of an extended grant.
use druvia.Prelude.{
  ◌≡◌, refl, subst, String, eq_iff, Bool, true, false, ◌&&◌, ◌||◌, not, List, [], ◌∷◌, ◌++◌, any,
  includes, includes-append, is_empty, or_else, ok, ok_injective, after_bind, after_guard, arith,
}
use druvia.DataAccess.Types.{
  AuthenticatedAccessMode, DataAccessOperation, select, insert, DataAccessColumnCapabilities,
  DataAccessColumnGrants,
}
use druvia.DataAccess.Policy.{is_owner, has_duplicate}
use druvia.DataAccess.Policy.Sorting.{IsGrant}
use druvia.DataAccess.Policy.Materialize.Accepts.{IsGranted}
use druvia.DataAccess.Managed.Extend.{
  ProjectionGrantAdditions, ProjectionModes, other_operation, nothing_requested, owner_preset,
  check_extension, extend_projection_column_grants,
}

any-append :
    (test : String → Bool) (xs ys : List String)
    → any test (xs ++ ys) ≡ (any test xs || any test ys)
any-append test [] ys = refl
any-append test (x ∷ xs) ys = ground (arith, any-append test xs ys)

apart_head :
    (x : String) (xs ys : List String)
    → any (λ c. includes (x ∷ xs) c) ys ≡ false
    → includes ys x ≡ false
apart_head x xs [] apart = refl
apart_head x xs (y ∷ ys) apart = ground (arith, apart_head x xs ys, eq_iff x y, eq_iff y x)

apart_tail :
    (x : String) (xs ys : List String)
    → any (λ c. includes (x ∷ xs) c) ys ≡ false
    → any (λ c. includes xs c) ys ≡ false
apart_tail x xs [] apart = refl
apart_tail x xs (y ∷ ys) apart = ground (arith, apart_tail x xs ys)

has_duplicate-append :
    (xs ys : List String)
    → has_duplicate xs ≡ false
    → has_duplicate ys ≡ false
    → any (λ c. includes xs c) ys ≡ false
    → has_duplicate (xs ++ ys) ≡ false
unfolding has_duplicate
has_duplicate-append [] ys fresh fresh' apart = fresh'
has_duplicate-append (x ∷ xs) ys fresh fresh' apart =
    let ih = has_duplicate-append xs ys (ground arith) fresh' (apart_tail x xs ys apart) in
    ground (arith, ih, includes-append xs ys x, apart_head x xs ys apart)

check_extension-IsGrant :
    (op : DataAccessOperation) (mode : AuthenticatedAccessMode)
    (columns granted available : List String)
    → check_extension op mode columns granted available ≡ ok tt
    → IsGrant granted available
    → IsGrant (granted ++ columns) available
unfolding check_extension IsGrant has_duplicate
check_extension-IsGrant op mode [] granted available checked (fresh, listed) = (
  has_duplicate-append granted [] fresh refl refl,
  ground (arith, any-append (λ c. not (includes available c)) granted []),
)
check_extension-IsGrant op mode (x ∷ xs) granted available checked (fresh, listed) = (
  has_duplicate-append granted (x ∷ xs) fresh (ground arith) (ground arith),
  ground (arith, any-append (λ c. not (includes available c)) granted (x ∷ xs)),
)

-- A grant of columns that the permissions of a table may be made of is extended to another such
-- grant, whose read and inserted columns are the granted and the requested ones; the columns of
-- updates and of anonymous reads stay, and the owner column that an insert presets is not among the inserted columns
-- when it was not before.
pub extend_projection_column_grants-IsGranted :
    (grants : DataAccessColumnGrants) (caps : DataAccessColumnCapabilities)
    (modes : ProjectionModes) (additions : ProjectionGrantAdditions) (next : DataAccessColumnGrants)
    → extend_projection_column_grants grants caps modes additions ≡ ok next
    → IsGranted grants caps
    → IsGranted next caps
      × ((c : String)
          → includes next.select c
            ≡ (includes grants.select c || includes (or_else additions.select []) c))
      × ((c : String)
          → includes next.insert c
            ≡ (includes grants.insert c || includes (or_else additions.insert []) c))
      × (next.update ≡ grants.update)
      × (next.anonymous_select ≡ grants.anonymous_select)
      × ((not (is_owner modes.insert && includes next.insert (or_else modes.owner_column ""))
            || includes grants.insert (or_else modes.owner_column ""))
          ≡ true)
unfolding extend_projection_column_grants
extend_projection_column_grants-IsGranted grants caps modes additions next extended granted =
    let reading = or_else additions.select [] in
    let inserting = or_else additions.insert [] in
    let preset = or_else modes.owner_column "" in
    after_guard (is_empty additions.other_keys) other_operation extended λ _ h1.
      after_guard (not (is_empty reading && is_empty inserting)) nothing_requested h1 λ _ h2.
        after_bind (check_extension select modes.select reading grants.select caps.readable_columns)
          h2
          λ _ read h3.
            after_bind
              (check_extension insert modes.insert inserting grants.insert caps.insertable_columns)
              h3
              λ _ inserted h4.
                after_guard (not (is_owner modes.insert && includes inserting preset)) owner_preset
                  h4
                  λ apart h5.
                    subst
                      (λ (g : DataAccessColumnGrants).
                        IsGranted g caps
                        × ((c : String)
                            → includes g.select c
                              ≡ (includes grants.select c || includes reading c))
                        × ((c : String)
                            → includes g.insert c
                              ≡ (includes grants.insert c || includes inserting c))
                        × (g.update ≡ grants.update)
                        × (g.anonymous_select ≡ grants.anonymous_select)
                        × ((not (is_owner modes.insert && includes g.insert preset)
                              || includes grants.insert preset)
                            ≡ true))
                      (ok_injective h5)
                      (
                        record {
                          select_granted =
                              check_extension-IsGrant select modes.select reading grants.select
                                caps.readable_columns read granted.select_granted;
                          insert_granted =
                              check_extension-IsGrant insert modes.insert inserting grants.insert
                                caps.insertable_columns inserted granted.insert_granted;
                          update_granted = granted.update_granted;
                          anonymous_granted = granted.anonymous_granted;
                        },
                        λ c. includes-append grants.select reading c,
                        λ c. includes-append grants.insert inserting c,
                        refl,
                        refl,
                        ground (arith, apart, includes-append grants.insert inserting preset),
                      )
