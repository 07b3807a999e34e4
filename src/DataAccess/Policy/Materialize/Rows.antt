-- ===== src/DataAccess/Policy/Materialize/Rows.antt =====
-- The rows that the made permissions open, against what the policy says of each operation.
use mathlib.Core.Option.{Option, some}
use druvia.Prelude.{ℕ, ◌==◌, String, str_eq, Bool, true, false, ◌&&◌, List, [], ◌∷◌, any}
use druvia.DataAccess.Types.{
  AuthenticatedAccessMode, all, owner, DataAccessOperation, select, insert, update, delete,
  SelectConstraint, AuthenticatedTableAccess, Test, equals_user, is_true, has_environment, RowRule,
  every_row, owner_is_user, owner_and_related, Permission, selecting, inserting, updating, deleting,
  MaterializedDataPermission,
}

-- A row as the rules see it in a session: which columns hold the session's user, and which tests a
-- column of the related row passes.
pub record Row : Type 0 where
  pub holds_user : String → Bool
  pub related : String → String → Test → Bool

unfoldable pub eval_tests : Row → String → List (String × Test) → Bool
eval_tests row relation [] = true
eval_tests row relation ((k, t) ∷ ts) = row.related relation k t && eval_tests row relation ts

unfoldable pub eval : RowRule → Row → Bool
eval every_row row = true
eval (owner_is_user c) row = row.holds_user c
eval (owner_and_related c relation ts) row = row.holds_user c && eval_tests row relation ts

-- The row is within the filter and the check of the permission.
unfoldable pub opens : Permission → Row → Bool
unfolding eval eval_tests
opens (selecting columns filter aggregations) row = eval filter row
opens (inserting columns check preset) row = eval check row
opens (updating columns filter check) row = eval filter row && eval check row
opens (deleting filter) row = eval filter row

abbrev pub op_index : DataAccessOperation → ℕ
op_index select = 0
op_index insert = 1
op_index update = 2
op_index delete = 3

unfoldable pub allowed : List MaterializedDataPermission → String → DataAccessOperation → Row → Bool
unfolding opens
allowed ps role op row =
    any (λ p. str_eq p.role role && (op_index p.operation == op_index op && opens p.permission row))
      ps

abbrev pub environment_holds : Row → String → Option String → Bool
environment_holds row relation Option.none = true
environment_holds row relation (some e) = row.related relation e has_environment

abbrev pub constraint_holds : Row → List String → SelectConstraint → Bool
constraint_holds row (relation ∷ []) c =
    row.related relation c.actor_column equals_user
    && (row.related relation c.allow_column is_true
        && environment_holds row relation c.environment_column)
constraint_holds row _ c = false

-- The constraint bears on a select alone.
abbrev pub select_holds : Row → DataAccessOperation → Option SelectConstraint → Bool
select_holds row select (some c) = constraint_holds row c.relationship_path c
select_holds row op c = true

abbrev pub owner_holds : Row → Option String → Bool
owner_holds row Option.none = false
owner_holds row (some c) = row.holds_user c

-- What the policy says: nothing, every row, or the caller's own rows.
abbrev pub mode_allows :
    AuthenticatedTableAccess → DataAccessOperation → Row → AuthenticatedAccessMode → Bool
mode_allows a op row all = true
mode_allows a op row owner =
    owner_holds row a.owner_column && select_holds row op a.select_constraint
mode_allows a op row _ = false

unfoldable pub policy_allows : AuthenticatedTableAccess → DataAccessOperation → Row → Bool
policy_allows a op row = mode_allows a op row (a.mode op)
