-- ===== src/Updater/Rollback/Task.antt =====
-- apps/updater/src/update-service.ts: how the task of a rollback that an operator asks for ends.
use druvia.Prelude.{
  String, ◌≡◌, refl, ◌⊎◌, inl, inr, ap, ◌∙◌, if◌then◌else◌, ◌||◌, Bool, true, false, Option, none,
  some, List,
}
use druvia.Updater.Status.{AppliedBackup, rolled_back}
use druvia.Updater.World.{
  Disk, ReleaseFiles, EnvLine, World, UpdateError, normalize_error, rollback_recovery_required,
  stored_status,
}
use druvia.Updater.World.Triple.{
  Triple, triple_throw, triple_catch, triple_bind, triple_write_state, triple_weaken,
}
use druvia.Updater.Start.{run_operation, handle_operation_failure, recovery_code}
use druvia.Updater.Start.Ends.{run_operation-ends}
use druvia.Updater.Rollback.{selected_backup, lookup_backup, rolled_back_status, rollback_task}
use druvia.Updater.Rollback.Restores.{IsStable, roll_back_restores}

either_way {ℓ} : {A : Type ℓ} (b : Bool) (x y : A) → (if b || true then x else y) ≡ x
either_way true x y = refl
either_way false x y = refl

module _ (version : String) (parse_env : List EnvLine → String → Option String)
    (valid_id : String → Bool) (op id restored : String) (backup : ReleaseFiles) where
  abbrev pub HasBackup : Disk → Type 0
  HasBackup d = lookup_backup id d.backups ≡ some backup

  stable : IsStable version id backup HasBackup
  stable = record { files = λ d f h. h; verified = λ d h. h; kept = λ d h. h }

  -- The files are those of the backup, and the status has its version.
  abbrev pub Restored : Disk → Type 0
  Restored d =
      HasBackup d
      × (d.files ≡ backup)
      × ((stored_status version d).phase ≡ rolled_back)
      × ((stored_status version d).current_version ≡ restored)

  -- The backup is kept, and the status names it.
  abbrev Named : Disk → Type 0
  Named d = HasBackup d × ((stored_status version d).operation_id ≡ some id)

  abbrev Retriable : UpdateError → Disk → Type 0
  Retriable e d = (e ≡ rollback_recovery_required) × Named d

  rollback_task-restores :
      (previous : Option AppliedBackup)
      → Triple op HasBackup
          (rollback_task version parse_env valid_id id restored previous)
          (λ _. Restored)
          Retriable
  unfolding rollback_task rolled_back_status
  rollback_task-restores previous =
      triple_catch op {R = λ _. HasBackup} _ _
        (triple_bind op (λ _ d. HasBackup d × (d.files ≡ backup)) _ _
          (roll_back_restores op version id backup stable)
          λ _. triple_write_state op version _ (λ d h. (h.0, h.1, refl, refl)))
        λ _.
          triple_bind op (λ _ d. HasBackup d × ((stored_status version d).operation_id ≡ some id)) _
            _ (triple_write_state op version _ (λ d h. (h, refl)))
            λ _. triple_throw op rollback_recovery_required (λ d h. (refl, h))

  -- The task has failed, and a rollback may be asked for again: it will select the same backup.
  abbrev pub CanRetry : Disk → Type 0
  CanRetry d =
      HasBackup d
      × ((stored_status version d).error ≡ some recovery_code)
      × (selected_backup (stored_status version d) ≡ some id)

  handled :
      (e : UpdateError)
      → Triple op
          (Retriable e)
          (handle_operation_failure version e)
          (λ _ d. Restored d ⊎ CanRetry d)
          (λ _ _. ⊥)
  unfolding handle_operation_failure selected_backup
  handled e =
      triple_write_state op version _ λ d r.
        inr (r.1.0, ap (λ x. some (normalize_error x)) r.0, rw r.0 (either_way _ _ _ ∙ r.1.1))

  -- Where an operation is active and the disk holds the backup, the background task of a rollback
  -- ends with no active operation, and then either the release files are those of the backup, the
  -- version is the restored one and the phase is rolled_back; or the backup is still there, the
  -- error asks for a recovery, and the next rollback selects the same backup.
  pub run_operation-rollback_task :
      (previous : Option AppliedBackup) (w : World)
      → w.active_operation_id ≡ some op
      → lookup_backup id w.disk.backups ≡ some backup
      → ((run_operation version
            (rollback_task version parse_env valid_id id restored previous)
            w).1.active_operation_id
          ≡ none)
        × (Restored
              (run_operation version
                (rollback_task version parse_env valid_id id restored previous)
                w).1.disk
            ⊎ CanRetry
                (run_operation version
                  (rollback_task version parse_env valid_id id restored previous)
                  w).1.disk)
  run_operation-rollback_task previous w active held =
      run_operation-ends version op _
        (triple_weaken op _ (λ d h. h) (λ u d q. inl q) (λ e d q. q)
          (rollback_task-restores previous))
        handled w active held
