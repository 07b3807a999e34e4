-- ===== src/DataAccess/Policy/Materialize/Sound.antt =====
-- The permissions made from a valid policy open exactly the rows that the policy speaks of.
use mathlib.Core.Option.{Option, some}
use druvia.Prelude.{
  ◌==◌, String, str_eq, eq_iff, str_eq_self, ◌≡◌, ◌≢◌, ◌⊎◌, refl, inl, inr, Bool, true, false, ◌&&◌,
  ◌||◌, List, [], ◌∷◌, ◌++◌, any, Result, ok, arith, Option-cases, >>=-eq-ok,
}
use druvia.DataAccess.Types.{
  AuthenticatedAccessMode, all, owner, unsupported, DataAccessOperation, select, SelectConstraint,
  AuthenticatedTableAccess, TableDataAccessInput, DataAccessColumnCapabilities, MaterializeOptions,
  equals_user, is_true, every_row, owner_and_related, Permission, MaterializedDataPermission,
  DataAccessValidationError,
}
use druvia.DataAccess.Policy.{
  operations, validate_table_data_access_input, constraint_ok, single_named,
}
use druvia.DataAccess.Policy.Materialize.{
  constraint_tests, permission_for, authenticated_permissions, anonymous_permissions,
  anonymous_columns, materialize_table_data_access_policy, grant_for, constraint_for,
  create_authenticated_permission, row_rule, first_name, owner_rule, owner_key,
}
use druvia.DataAccess.Policy.Materialize.Rows.{
  Row, eval_tests, eval, opens, op_index, allowed, environment_holds, constraint_holds,
  policy_allows,
}
use druvia.DataAccess.Policy.Materialize.Valid.{Valid, validate-Valid}

-- The actor and the allow column of a constraint differ.
abbrev pub HasTwoColumns : Option SelectConstraint → Type 0
HasTwoColumns Option.none = Unit
HasTwoColumns (some c) = c.actor_column ≢ c.allow_column

eval-every : (row : Row) → eval every_row row ≡ true
unfolding eval
eval-every row = refl

opens-created :
    (op : DataAccessOperation) (mode : AuthenticatedAccessMode)
    (caps : DataAccessColumnCapabilities) (column : Option String) (granted : Option (List String))
    (c : Option SelectConstraint) (p : Permission) (row : Row)
    → create_authenticated_permission op mode caps column granted c ≡ ok p
    → opens p row ≡ eval (row_rule mode column c) row
unfolding create_authenticated_permission opens
opens-created select mode caps column granted c p row h = ground arith
opens-created op mode caps column granted c p row h = ground arith

eval-constraint_tests :
    (c : SelectConstraint) (row : Row) (relation : String)
    → constraint_ok c ≡ true
    → c.actor_column ≢ c.allow_column
    → eval_tests row relation (constraint_tests c) ≡ (
        row.related relation c.actor_column equals_user
        && (row.related relation c.allow_column is_true
            && environment_holds row relation c.environment_column))
unfolding eval_tests constraint_tests constraint_ok
eval-constraint_tests c row relation good two = elim (Option-cases c.environment_column) [
  | inl global ↦ ground (arith, eq_iff c.actor_column c.allow_column)
  | inr (e, named) ↦ ground (
    arith,
    eq_iff c.actor_column c.allow_column,
    eq_iff e c.actor_column,
    eq_iff e c.allow_column,
    eq_iff c.actor_column e,
    eq_iff c.allow_column e,
  )
]

single_named-cons : (xs : List String) → single_named xs ≡ true → (r : String) × (xs ≡ r ∷ [])
single_named-cons (r ∷ []) h = (r, refl)
single_named-cons xs h = cc

eval-related :
    (row : Row) (column : String) (c : SelectConstraint)
    → constraint_ok c ≡ true
    → c.actor_column ≢ c.allow_column
    → eval (owner_and_related column (first_name c.relationship_path) (constraint_tests c)) row
      ≡ (row.holds_user column && constraint_holds row c.relationship_path c)
unfolding eval first_name
eval-related row column c good two =
    let (r, path) = single_named-cons c.relationship_path (unfold constraint_ok in ground arith) in
    ground (arith, path, eval-constraint_tests c row r good two)

eval-row_rule :
    (a : AuthenticatedTableAccess) (op : DataAccessOperation) (row : Row)
    → Valid a
    → HasTwoColumns a.select_constraint
    → a.mode op ≢ AuthenticatedAccessMode.none
    → eval (row_rule (a.mode op) a.owner_column (constraint_for op a.select_constraint)) row
      ≡ policy_allows a op row
unfolding row_rule constraint_for policy_allows owner_rule owner_key
eval-row_rule a select row valid two some_mode = elim (Option-cases a.owner_column) [
  | inl unowned ↦ unfold eval in ground (arith, valid.supported select, valid.owned select)
  | inr (column, owned) ↦ elim (Option-cases a.select_constraint) [
    | inl free ↦ unfold eval in ground (arith, valid.supported select)
    | inr (c, bound) ↦ ground (
      arith,
      valid.supported select,
      eval-related row column c (valid.constrained c bound) (rw bound at two),
      eval-every row,
    )
  ]
]
eval-row_rule a op row valid two some_mode =
    unfold eval in ground (arith, valid.supported op, valid.owned op)

mode_none :
    (mode : AuthenticatedAccessMode)
    → (mode ≡ AuthenticatedAccessMode.none) ⊎ (mode ≢ AuthenticatedAccessMode.none)
mode_none AuthenticatedAccessMode.none = inl refl
mode_none all = inr (λ e. cc)
mode_none owner = inr (λ e. cc)
mode_none (unsupported s) = inr (λ e. cc)

abbrev made :
    TableDataAccessInput
    → MaterializeOptions
    → DataAccessOperation
    → AuthenticatedAccessMode
    → Result DataAccessValidationError Permission
made input options op mode =
    create_authenticated_permission op mode options.capabilities input.authenticated.owner_column
      (grant_for options.column_grants op) (constraint_for op input.authenticated.select_constraint)

permission_for-made :
    (input : TableDataAccessInput) (options : MaterializeOptions) (op : DataAccessOperation)
    (mode : AuthenticatedAccessMode) (ps : List MaterializedDataPermission)
    → mode ≢ AuthenticatedAccessMode.none
    → permission_for input options op mode ≡ ok ps
    → (p : Permission) × (made input options op mode ≡ ok p)
      × (record { role = options.roles.authenticated; operation = op; permission = p } ∷ [] ≡ ps)
unfolding permission_for
permission_for-made input options op AuthenticatedAccessMode.none ps shown h = absurd (shown refl)
permission_for-made input options op all ps shown h =
    let (p, created, same) = >>=-eq-ok (made input options op all) _ h in (p, created, ground arith)
permission_for-made input options op owner ps shown h =
    let (p, created, same) = >>=-eq-ok (made input options op owner) _ h in
    (p, created, ground arith)
permission_for-made input options op (unsupported s) ps shown h =
    let (p, created, same) = >>=-eq-ok (made input options op (unsupported s)) _ h in
    (p, created, ground arith)

allowed-append :
    (ps qs : List MaterializedDataPermission) (role : String) (op : DataAccessOperation) (row : Row)
    → allowed (ps ++ qs) role op row ≡ (allowed ps role op row || allowed qs role op row)
unfolding allowed
allowed-append [] qs role op row = refl
allowed-append (p ∷ ps) qs role op row = ground (arith, allowed-append ps qs role op row)

module _ (input : TableDataAccessInput) (options : MaterializeOptions)
    (valid : Valid input.authenticated) (two : HasTwoColumns input.authenticated.select_constraint)
    (row : Row) where
  -- The permissions of one operation.
  allowed-permission_for :
      (op asked : DataAccessOperation) (ps : List MaterializedDataPermission)
      → permission_for input options op (input.authenticated.mode op) ≡ ok ps
      → allowed ps options.roles.authenticated asked row
        ≡ (op_index op == op_index asked && policy_allows input.authenticated op row)
  allowed-permission_for op asked ps h = elim (mode_none (input.authenticated.mode op)) [
    | inl closed ↦ unfold allowed permission_for policy_allows in ground arith
    | inr shown ↦
        let (p, created, same) = permission_for-made input options op _ ps shown h in
        rw (← same) (
          unfold allowed in
          ground (
            arith,
            str_eq_self options.roles.authenticated,
            opens-created op _ _ _ _ _ p row created,
            eval-row_rule input.authenticated op row valid two shown,
          ))
  ]

  allowed-authenticated_permissions :
      (asked : DataAccessOperation) (ops : List DataAccessOperation)
      (ps : List MaterializedDataPermission)
      → authenticated_permissions input options ops ≡ ok ps
      → allowed ps options.roles.authenticated asked row
        ≡ any (λ op. op_index op == op_index asked && policy_allows input.authenticated op row) ops
  unfolding authenticated_permissions
  allowed-authenticated_permissions asked [] ps h = unfold allowed in ground arith
  allowed-authenticated_permissions asked (op ∷ ops) ps h =
      let (first, here, more) =
        >>=-eq-ok (permission_for input options op (input.authenticated.mode op)) _ h in
      let (rest, later, same) = >>=-eq-ok (authenticated_permissions input options ops) _ more in
      ground (
        arith,
        allowed-append first rest options.roles.authenticated asked row,
        allowed-permission_for op asked first here,
        allowed-authenticated_permissions asked ops rest later,
      )

  any-operations :
      (asked : DataAccessOperation)
      → any
          (λ op. op_index op == op_index asked && policy_allows input.authenticated op row)
          operations
        ≡ policy_allows input.authenticated asked row
  any-operations select = ground arith
  any-operations asked = ground arith

-- The permission of the anonymous role opens every row to a select, and nothing else.
allowed-anonymous_permissions :
    (shown : Bool) (options : MaterializeOptions) (ps : List MaterializedDataPermission)
    (role : String) (asked : DataAccessOperation) (row : Row)
    → anonymous_permissions shown options ≡ ok ps
    → allowed ps role asked row
      ≡ (shown && (str_eq options.roles.anonymous role && op_index select == op_index asked))
unfolding anonymous_permissions allowed opens
allowed-anonymous_permissions false options ps role asked row h = ground arith
allowed-anonymous_permissions true options ps role asked row h =
    let (columns, selected, same) =
      >>=-eq-ok (anonymous_columns options.column_grants options.capabilities.readable_columns) _
        h in
    ground arith

one_other_role :
    (input : TableDataAccessInput) (options : MaterializeOptions) (op : DataAccessOperation)
    (mode : AuthenticatedAccessMode) (ps : List MaterializedDataPermission) (role : String)
    (asked : DataAccessOperation) (row : Row)
    → permission_for input options op mode ≡ ok ps
    → str_eq options.roles.authenticated role ≡ false
    → allowed ps role asked row ≡ false
one_other_role input options op mode ps role asked row h other = elim (mode_none mode) [
  | inl closed ↦ unfold allowed permission_for in ground arith
  | inr shown ↦
      let (p, created, same) = permission_for-made input options op mode ps shown h in
      rw (← same) (unfold allowed in ground arith)
]

-- The permissions of the operations are all of the authenticated role.
no_other_role :
    (input : TableDataAccessInput) (options : MaterializeOptions) (ops : List DataAccessOperation)
    (ps : List MaterializedDataPermission) (role : String) (asked : DataAccessOperation) (row : Row)
    → authenticated_permissions input options ops ≡ ok ps
    → str_eq options.roles.authenticated role ≡ false
    → allowed ps role asked row ≡ false
unfolding authenticated_permissions
no_other_role input options [] ps role asked row h other = unfold allowed in ground arith
no_other_role input options (op ∷ ops) ps role asked row h other =
    let (first, here, more) =
      >>=-eq-ok (permission_for input options op (input.authenticated.mode op)) _ h in
    let (rest, later, same) = >>=-eq-ok (authenticated_permissions input options ops) _ more in
    let ih = no_other_role input options ops rest role asked row later other in
    ground (
      arith,
      allowed-append first rest role asked row,
      one_other_role input options op (input.authenticated.mode op) first role asked row here other,
      ih,
    )

-- The permissions made from an accepted policy open, to the authenticated role, exactly the rows
-- that the policy speaks of for the operation, and to the anonymous role every row of a select,
-- where the policy grants that, and nothing else. The two roles differ, and so do the actor and
-- the allow column of a constraint.
pub materialize_opens_policy :
    (input : TableDataAccessInput) (options : MaterializeOptions)
    (ps : List MaterializedDataPermission) (op : DataAccessOperation) (row : Row)
    → materialize_table_data_access_policy input options ≡ ok ps
    → HasTwoColumns input.authenticated.select_constraint
    → options.roles.authenticated ≢ options.roles.anonymous
    → (allowed ps options.roles.authenticated op row ≡ policy_allows input.authenticated op row)
      × (allowed ps options.roles.anonymous op row
          ≡ (input.anonymous_select && op_index select == op_index op))
unfolding materialize_table_data_access_policy
materialize_opens_policy input options ps op row h two differ =
    let (_, accepted, more) =
      >>=-eq-ok (validate_table_data_access_input input options.capabilities) _ h in
    let (auth, made_auth, more') =
      >>=-eq-ok (authenticated_permissions input options operations) _ more in
    let (anon, made_anon, same) =
      >>=-eq-ok (anonymous_permissions input.anonymous_select options) _ more' in
    let valid = validate-Valid input options.capabilities accepted in
    let authenticated = options.roles.authenticated in
    let anonymous = options.roles.anonymous in
    (
      ground (
        arith,
        allowed-append auth anon authenticated op row,
        allowed-authenticated_permissions input options valid two row op operations auth made_auth,
        any-operations input options valid two row op,
        allowed-anonymous_permissions input.anonymous_select options anon authenticated op row
            made_anon,
        eq_iff anonymous authenticated,
      ),
      ground (
        arith,
        allowed-append auth anon anonymous op row,
        no_other_role input options operations auth anonymous op row made_auth,
        allowed-anonymous_permissions input.anonymous_select options anon anonymous op row
            made_anon,
        eq_iff authenticated anonymous,
        str_eq_self anonymous,
      ),
    )
