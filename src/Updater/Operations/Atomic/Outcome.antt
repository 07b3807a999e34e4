-- ===== src/Updater/Operations/Atomic/Outcome.antt =====
-- apps/updater/src/update-service.ts: how the background task of an application of an update ends.
use druvia.Prelude.{String, ◌≡◌, refl, ◌⊎◌, inl, inr, ap, Bool, Option, none, some, List, Result}
use druvia.Updater.Status.{DruviaReleaseManifest, failed}
use druvia.Updater.World.{
  World, Disk, ReleaseFiles, EnvLine, UpdateError, stored_status, normalize_error,
}
use druvia.Updater.World.Triple.{Triple, triple_weaken, triple_write_state}
use druvia.Updater.Start.{recovery_code, run_operation, handle_operation_failure}
use druvia.Updater.Start.Ends.{run_operation-ends}
use druvia.Updater.Operations.{apply_task}
use druvia.Updater.Operations.Atomic.{Untouched, Applied, RolledBack, Recoverable, Thrown, applied}

module _ (version : String) (fetched : String → Result UpdateError DruviaReleaseManifest)
    (validate : DruviaReleaseManifest → String → Result UpdateError DruviaReleaseManifest)
    (compose_text : String → String) (verify_sha256 : String → String → Bool)
    (parse_env : List EnvLine → String → Option String) where
  -- The ends of an application from the files `before` and the version `old`.
  abbrev pub Ended : String → ReleaseFiles → String → Disk → Type 0
  Ended id before old d =
      Applied version fetched validate compose_text verify_sha256 parse_env id before old d
      ⊎ RolledBack version fetched validate compose_text verify_sha256 parse_env id before old d
      ⊎ ((stored_status version d).phase ≡ failed)
        × (Untouched version fetched validate compose_text verify_sha256 parse_env id before old d
            ⊎ ((stored_status version d).error ≡ some recovery_code)
              × Recoverable version fetched validate compose_text verify_sha256 parse_env id before
                  old d)

  handled :
      (id : String) (before : ReleaseFiles) (old : String) (e : UpdateError)
      → Triple id
          (Thrown version fetched validate compose_text verify_sha256 parse_env id before old e)
          (handle_operation_failure version e)
          (λ _. Ended id before old)
          (λ _ _. ⊥)
  unfolding handle_operation_failure
  handled id before old e = triple_write_state id version _ λ d t. elim t [
    | inl u ↦ inr (inr (refl, inl u))
    | inr r ↦ inr (inr (refl, inr (ap (λ x. some (normalize_error x)) r.0, r.1)))
  ]

  -- When the background task of an application of an update has ended, no operation is active, and
  -- one of these holds: the files of a release are in place, its manifest passed the check for the
  -- version from before, its compose file has the hash of that manifest, its environment agrees with
  -- that manifest, the status names its version, and its phase is finalizing or succeeded; or the
  -- files and the version are those from before and the phase is rolled_back; or the phase is failed
  -- with the files and the version from before; or the phase is failed with the error that asks for a
  -- rollback, the stage says that files were switched, the version is that from before, and the
  -- operation's backup holds the files from before.
  pub run_operation-apply_task :
      (id : String) (w : World)
      → w.active_operation_id ≡ some id
      → ((run_operation version
            (apply_task version fetched validate compose_text verify_sha256 parse_env id)
            w).1.active_operation_id
          ≡ none)
        × Ended id w.disk.files
            (stored_status version w.disk).current_version
            (run_operation version
              (apply_task version fetched validate compose_text verify_sha256 parse_env id)
              w).1.disk
  run_operation-apply_task id w active =
      run_operation-ends version id _
        (triple_weaken id _ (λ d u. u) (λ u d q. elim q [ inl a ↦ inl a | inr b ↦ inr (inl b) ])
          (λ e d q. q)
          (applied version fetched validate compose_text verify_sha256 parse_env id w.disk.files
            (stored_status version w.disk).current_version))
        (handled id w.disk.files (stored_status version w.disk).current_version) w active
        (refl, refl)
