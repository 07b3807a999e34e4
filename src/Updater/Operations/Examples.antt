-- ===== src/Updater/Operations/Examples.antt =====
-- An update that is staged and applied, by update-service.ts.
use druvia.Prelude.{
  String, str_eq, ◌≡◌, ◌⊎◌, refl, true, if◌then◌else◌, Option, none, some, List, [], ◌∷◌, Result,
  ok,
}
use druvia.Updater.Status.{
  stable, applying, preparing_backup, DruviaUpdateStatus, DruviaReleaseManifest, DruviaReleaseImage,
  create_default_update_status,
}
use druvia.Updater.World.{World, EnvLine, assign, succeeds, stored_status, UpdateError}
use druvia.Updater.Start.{run_operation}
use druvia.Updater.Operations.{apply_task, download_task}
use druvia.Updater.Operations.Staging.{Ready, Failed, run_operation-download_task}
use druvia.Updater.Operations.Atomic.Outcome.{Ended, run_operation-apply_task}

abbrev image : DruviaReleaseImage
image = record { repository = "ghcr.io/druvia/api"; tag = "2.0.0"; digest = "sha256:00" }

abbrev manifest : DruviaReleaseManifest
manifest = record {
  version = "2.0.0";
  channel = stable;
  created_at = "2026-01-01T00:00:00Z";
  min_updater_version = "1.0.0";
  release_notes_url = "https://example.org/2.0.0";
  compose_url = "https://example.org/compose.yml";
  compose_sha256 = "00";
  api = image;
  admin = image;
  worker = image;
  updater = image;
  migrations = record {
    required = true;
    from = 3;
    to = 4;
    requires_backup = true;
    reversible = true;
  };
}

abbrev env_of : String → List EnvLine
env_of v =
    assign "DRUVIA_VERSION" v
    ∷ assign "DRUVIA_API_IMAGE" "ghcr.io/druvia/api@sha256:00"
    ∷ assign "DRUVIA_ADMIN_IMAGE" "ghcr.io/druvia/api@sha256:00"
    ∷ assign "DRUVIA_WORKER_IMAGE" "ghcr.io/druvia/api@sha256:00"
    ∷ assign "DRUVIA_UPDATER_IMAGE" "ghcr.io/druvia/api@sha256:00"
    ∷ []

parse : List EnvLine → String → Option String
parse [] k = none
parse (assign j v ∷ ls) k = if str_eq j k then some v else parse ls k
parse (EnvLine.other l ∷ ls) k = parse ls k

abbrev status : DruviaUpdateStatus
status = record (create_default_update_status "1.0.0") {
  phase = applying;
  available_version = some "2.0.0";
  migration = some manifest.migrations;
  operation_id = some "op";
  apply_stage = some preparing_backup;
}

abbrev world : World
world = record {
  disk = record {
    status = some status;
    files = record { env = env_of "1.0.0"; compose = "old" };
    staged_manifest = some manifest;
    staged_compose = some "new";
    staged_env = some (env_of "2.0.0");
    backups = [];
  };
  active_operation_id = some "op";
  results = λ n. succeeds;
  calls = 0;
}

abbrev validated : DruviaReleaseManifest → String → Result UpdateError DruviaReleaseManifest
validated m v = ok m

abbrev finished : World
finished =
    (run_operation "1.0.0"
      (apply_task "1.0.0" (λ v. ok manifest) validated (λ u. "new") (λ t h. true) parse "op")
      world).1

run_operation-apply_task_example :
    (finished.active_operation_id ≡ none)
    × Ended "1.0.0"
        (λ v. ok manifest)
        validated
        (λ u. "new")
        (λ t h. true)
        parse
        "op"
        world.disk.files
        (stored_status "1.0.0" world.disk).current_version
        finished.disk
run_operation-apply_task_example =
    run_operation-apply_task "1.0.0" (λ v. ok manifest) validated (λ u. "new") (λ t h. true) parse
      "op" world refl

abbrev downloaded : World
downloaded =
    (run_operation "1.0.0"
      (download_task "1.0.0" (λ v. ok manifest) validated (λ u. "new") (λ t h. true) parse) world).1

run_operation-download_task_example :
    (downloaded.active_operation_id ≡ none)
    × (Ready "1.0.0"
          (λ v. ok manifest)
          validated
          (λ u. "new")
          (λ t h. true)
          parse
          "op"
          world.disk.files
          (stored_status "1.0.0" world.disk).current_version
          world.disk.backups
          downloaded.disk
        ⊎ Failed "1.0.0"
            (λ v. ok manifest)
            validated
            (λ u. "new")
            (λ t h. true)
            parse
            "op"
            world.disk.files
            (stored_status "1.0.0" world.disk).current_version
            world.disk.backups
            downloaded.disk)
run_operation-download_task_example =
    run_operation-download_task "1.0.0" (λ v. ok manifest) validated (λ u. "new") (λ t h. true)
      parse "op" world refl
