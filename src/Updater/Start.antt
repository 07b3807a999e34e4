-- ===== src/Updater/Start.antt =====
-- apps/updater/src/update-service.ts: how an operation is admitted, run in the background and
-- closed, and what a restart of the updater does to an interrupted one.
pub mod Exclusion
pub mod Ends
mod Examples
use druvia.Prelude.{
  String, str_eq, opt_is, is_some, if◌then◌else◌, Bool, true, false, not, ◌&&◌, ◌||◌, Option, none,
  some, Result, ok, err,
}
use druvia.Updater.Status.{
  DruviaUpdatePhase, applying, verifying, failed, ApplyStage, preparing_backup, backup_ready,
  rolling_back, DruviaUpdateStatus, is_druvia_update_mutating_phase,
}
use druvia.Updater.World.{
  World, M, UpdateError, operation_in_progress, precondition, normalize_error, is_finalizing, pure,
  throw, ◌>>=◌, ◌>>◌, catch, get_status, write_state, get_disk, put_disk,
}

abbrev pub recovery_code : String
recovery_code = "UPDATE_ROLLBACK_RECOVERY_REQUIRED"

unfoldable pub set_active : Option String → M (Unit {0})
set_active id w = (ok tt, record w { active_operation_id = id })

abbrev is_applying : DruviaUpdatePhase → Bool
is_applying applying = true
is_applying _ = false

abbrev first_stage : DruviaUpdatePhase → Bool → Option ApplyStage
first_stage applying true = some rolling_back
first_stage applying false = some preparing_backup
first_stage _ allow = none

abbrev pub started_status :
    DruviaUpdatePhase → String → Bool → Option String → DruviaUpdateStatus → DruviaUpdateStatus
started_status phase operation_id allow selected current = record current {
  phase = phase;
  operation_id = some operation_id;
  apply_stage = first_stage phase allow;
  rollback_backup_operation_id = selected;
  error = none;
}

module _ (version : String) where
  admit :
      DruviaUpdatePhase
      → String
      → Bool
      → (DruviaUpdateStatus → M (Option String))
      → DruviaUpdateStatus
      → M DruviaUpdateStatus
  admit phase operation_id allow select current =
      if is_druvia_update_mutating_phase current.phase
      then throw (operation_in_progress current.operation_id)
      else if not allow && opt_is current.error recovery_code
      then throw (precondition recovery_code)
      else do
        selected ← select current
        disk ← get_disk
        let status = started_status phase operation_id allow selected current
        put_disk (record disk { status = some status })
        pure status

  -- `select` is `validateCurrent` and the choice of the backup to roll back to.
  start_checked :
      Option String
      → DruviaUpdatePhase
      → String
      → Bool
      → (DruviaUpdateStatus → M (Option String))
      → M DruviaUpdateStatus
  start_checked (some id) phase operation_id allow select = throw (operation_in_progress (some id))
  start_checked none phase operation_id allow select = do
    set_active (some operation_id)
    catch (do current ← get_status version; admit phase operation_id allow select current)
        (λ e. do set_active none; throw e)

  unfoldable pub start_operation :
      DruviaUpdatePhase
      → String
      → Bool
      → (DruviaUpdateStatus → M (Option String))
      → M DruviaUpdateStatus
  unfolding start_checked admit set_active ◌>>=◌ catch get_status get_disk put_disk
  start_operation phase operation_id allow select w =
      start_checked w.active_operation_id phase operation_id allow select w

  unfoldable pub handle_operation_failure : UpdateError → M (Unit {0})
  handle_operation_failure e =
      write_state version (λ s. record s { phase = failed; error = some (normalize_error e) })

  -- The background task: the failure is recorded, and the operation is no longer active.
  unfoldable pub run_operation : M (Unit {0}) → M (Unit {0})
  unfolding set_active handle_operation_failure ◌>>=◌ catch write_state
  run_operation operation = do catch operation handle_operation_failure; set_active none

abbrev pub is_apply_phase : DruviaUpdatePhase → Bool
is_apply_phase applying = true
is_apply_phase verifying = true
is_apply_phase _ = false

abbrev pub is_backup_stage : Option ApplyStage → Bool
is_backup_stage (some preparing_backup) = true
is_backup_stage (some backup_ready) = true
is_backup_stage _ = false

-- The patch of `recoverInterruptedOperation`.
abbrev pub interrupted_status : Bool → DruviaUpdateStatus → DruviaUpdateStatus → DruviaUpdateStatus
interrupted_status needs_rollback current s = record s {
  phase = failed;
  operation_id =
      if needs_rollback && is_some current.rollback_backup_operation_id
      then current.rollback_backup_operation_id
      else current.operation_id;
  rollback_backup_operation_id = none;
  apply_stage = none;
  error = some (if needs_rollback then recovery_code else "UPDATE_OPERATION_FAILED");
}

-- `diverged` is the comparison of the release files with the backup, `stop` the stopping of the
-- services.
module _ (version : String) (diverged : DruviaUpdateStatus → M Bool) (stop : M (Unit {0})) where
  unfoldable pub needs_rollback : DruviaUpdateStatus → M Bool
  needs_rollback s =
      if not (is_apply_phase s.phase)
      then pure false
      else if not (is_backup_stage s.apply_stage)
      then pure true
      else diverged s

  unfoldable pub recover_from : DruviaUpdateStatus → M (Unit {0})
  recover_from current =
      if not (is_druvia_update_mutating_phase current.phase) || is_finalizing current.phase
      then pure tt
      else do
        needed ← needs_rollback current
        if needed then stop else pure tt
        write_state version (interrupted_status needed current)

  unfoldable pub recover_interrupted_operation : M (Unit {0})
  unfolding recover_from needs_rollback ◌>>=◌ get_status write_state
  recover_interrupted_operation = do current ← get_status version; recover_from current
