-- ===== src/Updater/Start/Examples.antt =====
-- The start of a check for updates, by update-service.ts.
use druvia.Prelude.{String, false, Option, none, []}
use druvia.Updater.Status.{checking, DruviaUpdateStatus}
use druvia.Updater.World.{World, M, succeeds, pure}
use druvia.Updater.World.Triple.{triple_pure}
use druvia.Updater.Start.{start_operation}
use druvia.Updater.Start.Exclusion.{Called, start_operation-Called}

abbrev world : World
world = record {
  disk = record {
    status = none;
    files = record { env = []; compose = "" };
    staged_manifest = none;
    staged_compose = none;
    staged_env = none;
    backups = [];
  };
  active_operation_id = none;
  results = λ n. succeeds;
  calls = 0;
}

abbrev no_backup : DruviaUpdateStatus → M (Option String)
no_backup s = pure none

start_operation-Called_example :
    Called "1.0.0" checking "op" false no_backup world
      (start_operation "1.0.0" checking "op" false no_backup world).0
      (start_operation "1.0.0" checking "op" false no_backup world).1
start_operation-Called_example =
    start_operation-Called "1.0.0" checking "op" false no_backup
      (λ s. triple_pure "op" none (λ d p. tt)) world
