-- ===== src/Updater/Rollback/Examples.antt =====
-- A rollback to a backup, by update-service.ts.
use druvia.Prelude.{
  String, str_eq, ◌≡◌, refl, ◌⊎◌, if◌then◌else◌, true, Option, none, some, List, [], ◌∷◌,
}
use druvia.Updater.Status.{applying, files_switched, create_default_update_status}
use druvia.Updater.World.{World, ReleaseFiles, EnvLine, assign, succeeds}
use druvia.Updater.Start.{run_operation}
use druvia.Updater.Rollback.{rollback_task, lookup_backup, restart_updater}
use druvia.Updater.Rollback.Recovery.{Restarted, restart_updater-Restarted}
use druvia.Updater.Rollback.Task.{Restored, CanRetry, run_operation-rollback_task}

abbrev old_files : ReleaseFiles
old_files = record { env = assign "DRUVIA_VERSION" "1.0.0" ∷ []; compose = "old" }

abbrev world : World
world = record {
  disk = record {
    status = some (create_default_update_status "2.0.0");
    files = record { env = assign "DRUVIA_VERSION" "2.0.0" ∷ []; compose = "new" };
    staged_manifest = none;
    staged_compose = none;
    staged_env = none;
    backups = ("b1", old_files) ∷ [];
  };
  active_operation_id = some "op";
  results = λ n. succeeds;
  calls = 0;
}

parse : List EnvLine → String → Option String
parse [] k = none
parse (assign j v ∷ ls) k = if str_eq j k then some v else parse ls k
parse (EnvLine.other l ∷ ls) k = parse ls k

abbrev finished : World
finished =
    (run_operation "2.0.0" (rollback_task "2.0.0" parse (λ i. true) "b1" "1.0.0" none) world).1

run_operation-rollback_task_example :
    (finished.active_operation_id ≡ none)
    × (Restored "2.0.0" parse (λ i. true) "op" "b1" "1.0.0" old_files finished.disk
        ⊎ CanRetry "2.0.0" parse (λ i. true) "op" "b1" "1.0.0" old_files finished.disk)
run_operation-rollback_task_example =
    run_operation-rollback_task "2.0.0" parse (λ i. true) "op" "b1" "1.0.0" old_files none world
      refl (unfold lookup_backup in refl)

-- The updater was stopped while it applied an update.
abbrev interrupted : World
interrupted = record world {
  disk = record world.disk {
    status = some (record (create_default_update_status "1.0.0") {
      phase = applying;
      operation_id = some "b1";
      apply_stage = some files_switched;
    });
  };
  active_operation_id = none;
}

restart_updater-Restarted_example :
    Restarted "2.0.0" parse
      (λ i. true)
      interrupted
      (restart_updater "2.0.0" parse (λ i. true) interrupted).0
      (restart_updater "2.0.0" parse (λ i. true) interrupted).1
restart_updater-Restarted_example = restart_updater-Restarted "2.0.0" parse (λ i. true) interrupted
