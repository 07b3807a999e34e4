-- ===== src/Updater/Rollback.antt =====
-- apps/updater/src/update-service.ts: the rollback to a backup. The watchdog that probes the lock
-- beside the rollback is seen by its effect: a probe, or a command under its abort signal, fails.
pub mod Restores
pub mod Task
pub mod Recovery
mod Examples
use druvia.Prelude.{
  ℕ, zero, suc, String, str_eq, opt_is, if◌then◌else◌, Bool, true, false, not, ◌&&◌, ◌||◌, Option,
  none, some, List, [], ◌∷◌, Result, ok, err, find,
}
use druvia.Updater.Status.{
  DruviaUpdatePhase, applying, verifying, rolled_back, failed, ApplyStage, preparing_backup,
  files_switched, DruviaUpdateStatus, AppliedBackup,
}
use druvia.Updater.World.{
  World, M, Disk, ReleaseFiles, EnvLine, assign, other, CallResult, succeeds, missing, fails,
  UpdateError, failure, precondition, rollback_recovery_required, pure, throw, ◌>>=◌, ◌>>◌, catch,
  call, call?, get_disk, put_disk, get_status, write_state,
}
use druvia.Updater.Start.{
  recovery_code, start_operation, run_operation, recover_interrupted_operation,
}

unfoldable pub lookup_backup : String → List (String × ReleaseFiles) → Option ReleaseFiles
lookup_backup id [] = none
lookup_backup id ((j, files) ∷ bs) = if str_eq j id then some files else lookup_backup id bs

-- The three containers are stopped one by one if one of them is missing; the first failure that is
-- no missing container is thrown in the end.
stop_one : Bool → M Bool
stop_one failed_before = do r ← call?; elim r [ fails ↦ pure true | _ ↦ pure failed_before ]

stop_each : M (Unit {0})
stop_each = do
  api ← stop_one false
  admin ← stop_one api
  deno ← stop_one admin
  if deno then throw failure else pure tt

unfoldable pub stop_rollback_services : M (Unit {0})
unfolding stop_each stop_one ◌>>=◌ call?
stop_rollback_services = do
  r ← call?
  elim r [ succeeds ↦ pure tt | missing ↦ stop_each | fails ↦ throw failure ]

-- The retries of `waitForProjectionRollbackLock`.
wait_for_lock : ℕ → M (Unit {0})
wait_for_lock zero = throw failure
wait_for_lock (suc attempts) = let again = wait_for_lock attempts in catch call (λ _. again)

-- The gate, the release of a stale holder, the check of the projections, and the lock holder.
prepare_projection_rollback : M (Unit {0})
prepare_projection_rollback = do stop_rollback_services; call; call; call; call; wait_for_lock 40

copy_compose : ReleaseFiles → M (Unit {0})
copy_compose backup = do
  call
  disk ← get_disk
  put_disk (record disk { files = record disk.files { compose = backup.compose } })

copy_env : ReleaseFiles → M (Unit {0})
copy_env backup = do
  call
  disk ← get_disk
  put_disk (record disk { files = record disk.files { env = backup.env } })

restore_files : Option ReleaseFiles → M (Unit {0})
restore_files none = throw failure
restore_files (some backup) = do copy_env backup; copy_compose backup; call

restore_backup : String → M (Unit {0})
restore_backup id = do disk ← get_disk; restore_files (lookup_backup id disk.backups)

module _ (version : String) where
  -- Restore, the worker's rollback, the start of the services, their verification, and the release
  -- of the gate; the lock is probed between all of these.
  rollback_steps : String → M (Unit {0})
  rollback_steps id = do
    call
    restore_backup id
    call
    call
    call
    call
    call
    write_state version (λ s. record s { phase = verifying })
    call
    call
    call
    call
    call

  -- try { enable the gate } finally { stop the services }, then the error is thrown again.
  abort_rollback : UpdateError → M (Unit {0})
  abort_rollback e = do
    catch call (λ enabling. do stop_rollback_services; throw enabling)
    stop_rollback_services
    throw e

  complete_projection_rollback : String → M (Unit {0})
  complete_projection_rollback id = catch (rollback_steps id) abort_rollback

  pub roll_back : String → M (Unit {0})
  roll_back id = do prepare_projection_rollback; complete_projection_rollback id

abbrev is_failed : DruviaUpdatePhase → Bool
is_failed failed = true
is_failed _ = false

abbrev is_files_switched : Option ApplyStage → Bool
is_files_switched (some files_switched) = true
is_files_switched _ = false

abbrev matching_backup : Option AppliedBackup → String → Option String
matching_backup none version = none
matching_backup (some b) version =
    if str_eq b.target_version version then some b.operation_id else none

-- The backup that a rollback uses: that of the failed operation, or that of the version in use.
unfoldable pub selected_backup : DruviaUpdateStatus → Option String
selected_backup s =
    if is_failed s.phase && (is_files_switched s.apply_stage || opt_is s.error recovery_code)
    then s.operation_id
    else matching_backup s.last_applied_backup s.current_version

abbrev not_available : {A : Type 0} → M A
not_available = throw (precondition "UPDATE_BACKUP_NOT_AVAILABLE")

abbrev kept_backup : Option AppliedBackup → String → Option AppliedBackup
kept_backup none id = none
kept_backup (some b) id = if str_eq b.operation_id id then none else some b

-- `parse_env` is parseEnv of Node: the value of a key. `valid_id` is the test of the pattern
-- /^[A-Za-z0-9_-]+$/ on an operation's identity.
module _ (version : String) (parse_env : List EnvLine → String → Option String)
    (valid_id : String → Bool) where
  restored_version : Option ReleaseFiles → Option String
  restored_version none = none
  restored_version (some b) = parse_env b.env "DRUVIA_VERSION"

  check_version : String → Option String → M (String × String)
  check_version id none = not_available
  check_version id (some v) = if str_eq v "" then not_available else pure (id, v)

  -- The selection, with the version that the backup restores.
  check_backup : Option String → M (String × String)
  check_backup none = not_available
  check_backup (some id) =
      if str_eq id "" || not (valid_id id)
      then not_available
      else do disk ← get_disk; check_version id (restored_version (lookup_backup id disk.backups))

  rolled_back_status :
      String → String → Option AppliedBackup → DruviaUpdateStatus → DruviaUpdateStatus
  rolled_back_status id restored previous s = record s {
    phase = rolled_back;
    current_version = restored;
    available_version = none;
    operation_id = none;
    rollback_backup_operation_id = none;
    last_applied_backup = kept_backup previous id;
    apply_stage = none;
    error = none;
  }

  -- The background task of `rollbackUpdate`.
  pub rollback_task : String → String → Option AppliedBackup → M (Unit {0})
  rollback_task id restored previous =
      catch (do roll_back version id; write_state version (rolled_back_status id restored previous))
        (λ _. do
          write_state version
              (λ s. record s { operation_id = some id; rollback_backup_operation_id = none })
          throw rollback_recovery_required)

  env_line_eq : EnvLine → EnvLine → Bool
  env_line_eq (assign k v) (assign k' v') = str_eq k k' && str_eq v v'
  env_line_eq (other l) (other l') = str_eq l l'
  env_line_eq _ _ = false

  env_eq : List EnvLine → List EnvLine → Bool
  env_eq [] [] = true
  env_eq (l ∷ ls) (l' ∷ ls') = env_line_eq l l' && env_eq ls ls'
  env_eq _ _ = false

  is_preparing : Option ApplyStage → Bool
  is_preparing (some preparing_backup) = true
  is_preparing _ = false

  -- A backup that is not there is expected only while it is being prepared.
  differs_from : DruviaUpdateStatus → ReleaseFiles → Option ReleaseFiles → Bool
  differs_from s files none = not (is_preparing s.apply_stage)
  differs_from s files (some b) = not (env_eq files.env b.env && str_eq files.compose b.compose)

  diverged_from : DruviaUpdateStatus → Disk → Option String → Bool
  diverged_from s disk none = true
  diverged_from s disk (some id) =
      if str_eq id "" || not (opt_is (parse_env disk.files.env "DRUVIA_VERSION") s.current_version)
      then true
      else differs_from s disk.files (lookup_backup id disk.backups)

  release_files_diverged : DruviaUpdateStatus → M Bool
  release_files_diverged s = do disk ← get_disk; pure (diverged_from s disk s.operation_id)

  -- The updater starts again.
  pub restart_updater : M (Unit {0})
  restart_updater =
      recover_interrupted_operation version release_files_diverged stop_rollback_services

  -- `rollbackUpdate` up to the start of its task, which is given what the check selected.
  pub start_rollback : String → M DruviaUpdateStatus
  start_rollback operation_id =
      start_operation version applying operation_id true
        (λ s. do (id, restored) ← check_backup (selected_backup s); pure (some id))
