-- ===== src/DataAccess/Managed/Recover/Examples.antt =====
-- A reconciliation that was interrupted after the first of two permissions was dropped.
use druvia.Prelude.{ℕ, ◌≡◌, ◌↔◌, refl, String, true, false, List, [], ◌∷◌}
use druvia.DataAccess.Types.{
  select, delete, owner_is_user, every_row, selecting, deleting, MaterializedDataPermission,
}
use druvia.DataAccess.Managed.Recover.{
  same_key, state_delete, state_set, state_of, drop_all, create_all,
  is_recoverable_permission_snapshot,
}
use druvia.DataAccess.Managed.Recover.Prefix.{
  commands, take, run, is_recoverable_permission_snapshot_iff,
}

abbrev reading : MaterializedDataPermission
reading = record {
  role = "p_user";
  operation = select;
  permission = selecting ("author" ∷ []) (owner_is_user "author") false;
}

abbrev removing : MaterializedDataPermission
removing = record {
  role = "p_user";
  operation = delete;
  permission = deleting (owner_is_user "author");
}

abbrev widened : MaterializedDataPermission
widened = record {
  role = "p_user";
  operation = select;
  permission = selecting ("author" ∷ []) every_row false;
}

-- A digest that tells apart how many permissions there are and whether the first reads.
abbrev digest : List MaterializedDataPermission → String
digest [] = "none"
digest (p ∷ []) = elim p.operation [ select ↦ "one that reads" | _ ↦ "one" ]
digest (p ∷ q ∷ ps) = "more"

abbrev source : List MaterializedDataPermission
source = reading ∷ removing ∷ []

abbrev target : List MaterializedDataPermission
target = widened ∷ []

interrupted :
    is_recoverable_permission_snapshot (λ ps. ps) digest (removing ∷ []) source target ≡ true
unfolding is_recoverable_permission_snapshot state_of state_set same_key drop_all create_all
    state_delete
interrupted = refl

is_recoverable_permission_snapshot_iff_example :
    (is_recoverable_permission_snapshot (λ ps. ps) digest (removing ∷ []) source target ≡ true) ↔ (
      (n : ℕ) × (digest (removing ∷ [])
        ≡ digest (run (take n (commands source target)) (state_of source []))))
is_recoverable_permission_snapshot_iff_example =
    is_recoverable_permission_snapshot_iff (λ ps. ps) digest (removing ∷ []) source target
