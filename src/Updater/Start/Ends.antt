-- ===== src/Updater/Start/Ends.antt =====
-- apps/updater/src/update-service.ts: how a background task ends, from what its operation does.
use druvia.Prelude.{String, ◌≡◌, refl, none, some, Result, ok, err}
use druvia.Updater.World.{M, World, Disk, UpdateError, catch, continue, ◌>>=◌}
use druvia.Updater.World.Triple.{Triple, Post, triple_catch, triple_weaken}
use druvia.Updater.Start.{run_operation, handle_operation_failure, set_active}

-- A background task that ends in `Q`, or throws with `E` from which the record of the failure leads
-- to `Q`, has ended in `Q` when no operation is active any more.
pub run_operation-ends :
    (version id : String) {P Q : Disk → Type 0} {E : UpdateError → Disk → Type 0}
    (operation : M (Unit {0}))
    → Triple id P operation (λ _. Q) E
    → ((e : UpdateError) → Triple id (E e) (handle_operation_failure version e) (λ _. Q) (λ _ _. ⊥))
    → (w : World) → w.active_operation_id ≡ some id
    → P w.disk
    → ((run_operation version operation w).1.active_operation_id ≡ none)
      × Q (run_operation version operation w).1.disk
unfolding run_operation ◌>>=◌ set_active
run_operation-ends version id {P} {Q} operation task handled w active p =
    go (catch operation (handle_operation_failure version) w).0
      (catch operation (handle_operation_failure version) w).1
      ((triple_catch id operation _ (triple_weaken id _ (λ d q. q) (λ a d q. q) (λ e d q. q) task)
          handled).at
        w active p)
  where
    go :
        (r : Result UpdateError (Unit {0})) (w' : World)
        → (w'.active_operation_id ≡ some id) × Post (λ _. Q) (λ _ _. ⊥) r w'.disk
        → ((continue r (λ _. set_active none) w').1.active_operation_id ≡ none)
          × Q (continue r (λ _. set_active none) w').1.disk
    go (ok u) w' q = (refl, q.1)
    go (err e) w' q = absurd q.1
