-- ===== src/DataAccess/Managed/Recover.antt =====
-- isRecoverablePermissionSnapshot of apps/api/src/modules/data-access/data-access-managed-policy.ts.
pub mod Prefix
mod Examples
use druvia.Prelude.{
  ◌==◌, String, str_eq, if◌then◌else◌, Bool, true, false, ◌&&◌, not, List, [], ◌∷◌, includes,
}
use druvia.Prelude
use druvia.DataAccess.Types.{
  MaterializedDataPermission, DataAccessOperation, select, insert, update, delete,
}
use druvia.DataAccess.Policy.Materialize.Rows.{op_index}

-- Equality of `permissionKey`s: a NUL parts the role from the name of the operation, which has none.
unfoldable pub same_key : MaterializedDataPermission → MaterializedDataPermission → Bool
same_key p q = str_eq p.role q.role && op_index p.operation == op_index q.operation

-- The values of the map `state`, in its order.
unfoldable pub state_delete :
    MaterializedDataPermission → List MaterializedDataPermission → List MaterializedDataPermission
unfolding same_key
state_delete p state = Prelude.select (λ q. not (same_key p q)) state

unfoldable pub state_set :
    MaterializedDataPermission → List MaterializedDataPermission → List MaterializedDataPermission
unfolding same_key
state_set p [] = p ∷ []
state_set p (q ∷ qs) = let rest = state_set p qs in if same_key p q then p ∷ qs else q ∷ rest

unfoldable pub state_of :
    List MaterializedDataPermission
    → List MaterializedDataPermission
    → List MaterializedDataPermission
unfolding state_set
state_of [] state = state
state_of (p ∷ ps) state = state_of ps (state_set p state)

-- `snapshot` is createPermissionSnapshot, which sorts, and `digest` is permissionSnapshotDigest, a hash
-- of the JSON text; neither is made here.
module _ (snapshot : List MaterializedDataPermission → List MaterializedDataPermission)
    (digest : List MaterializedDataPermission → String) where
  -- The two loops: the state, and the digests that are allowed.
  unfoldable pub drop_all :
      List MaterializedDataPermission
      → List MaterializedDataPermission
      → List String
      → List MaterializedDataPermission × List String
  unfolding state_delete
  drop_all [] state allowed = (state, allowed)
  drop_all (p ∷ ps) state allowed =
      let next = state_delete p state in drop_all ps next (digest next ∷ allowed)

  unfoldable pub create_all :
      List MaterializedDataPermission
      → List MaterializedDataPermission
      → List String
      → List MaterializedDataPermission × List String
  unfolding state_set
  create_all [] state allowed = (state, allowed)
  create_all (p ∷ ps) state allowed =
      let next = state_set p state in create_all ps next (digest next ∷ allowed)

  unfoldable pub is_recoverable_permission_snapshot :
      List MaterializedDataPermission
      → List MaterializedDataPermission
      → List MaterializedDataPermission
      → Bool
  unfolding state_of drop_all create_all
  is_recoverable_permission_snapshot current source target =
      let state = state_of (snapshot source) [] in
      let dropped = drop_all (snapshot source) state (digest state ∷ []) in
      let created = create_all (snapshot target) dropped.0 dropped.1 in
      includes created.1 (digest current)
