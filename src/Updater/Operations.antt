-- ===== src/Updater/Operations.antt =====
-- apps/updater/src/update-service.ts: the tasks that check for a release, download it, apply it and
-- restart the services.
pub mod Atomic
pub mod Staging
mod Examples
use druvia.Prelude.{
  ℕ, zero, suc, ◌==◌, String, str_eq, opt_is, if◌then◌else◌, Bool, true, false, not, ◌&&◌, ◌||◌,
  Option, none, some, List, [], ◌∷◌, ◌++◌, Result, ok, err, map,
}
use Prim.Native.String
use druvia.Updater.Status.{
  checking, available, downloading, ready_to_apply, applying, restarting, idle, verifying,
  finalizing, rolled_back, succeeded, backup_ready, files_switched, DruviaUpdateStatus,
  DruviaUpdatePhase, AppliedBackup, DruviaReleaseManifest, DruviaReleaseImage, Migrations,
}
use druvia.Updater.World.{
  World, M, Disk, ReleaseFiles, EnvLine, assign, other, UpdateError, failure, precondition,
  manifest_error, rollback_recovery_required, normalize_error, pure, throw, ◌>>=◌, ◌>>◌, catch,
  call, get_disk, put_disk, get_status, write_state,
}
use druvia.Updater.Start.{start_operation, run_operation}
use druvia.Updater.Rollback.{roll_back}

-- mergeEnvContent: the first line of each key is replaced; the keys that have no line follow.
without_key : String → List (String × String) → List (String × String)
without_key k [] = []
without_key k ((j, v) ∷ us) = if str_eq j k then us else (j, v) ∷ without_key k us

update_for : String → List (String × String) → Option String
update_for k [] = none
update_for k ((j, v) ∷ us) = if str_eq j k then some v else update_for k us

append_updates : List (String × String) → List EnvLine
append_updates us = map (λ u. assign u.0 u.1) us

pub merge_env_content : List EnvLine → List (String × String) → List EnvLine
unfolding append_updates
merge_env_content [] us = append_updates us
merge_env_content (other l ∷ ls) us = other l ∷ merge_env_content ls us
merge_env_content (assign k v ∷ ls) us = elim (update_for k us) [
  | none ↦ assign k v ∷ merge_env_content ls us
  | some v' ↦ assign k v' ∷ merge_env_content ls (without_key k us)
]

build_image_ref : DruviaReleaseImage → String
build_image_ref image = String.◌++◌ image.repository (String.◌++◌ "@" image.digest)

pub release_env : DruviaReleaseManifest → List (String × String)
unfolding build_image_ref
release_env m =
    ("DRUVIA_VERSION", m.version)
    ∷ ("DRUVIA_API_IMAGE", build_image_ref m.api)
    ∷ ("DRUVIA_ADMIN_IMAGE", build_image_ref m.admin)
    ∷ ("DRUVIA_WORKER_IMAGE", build_image_ref m.worker)
    ∷ ("DRUVIA_UPDATER_IMAGE", build_image_ref m.updater)
    ∷ []

bool_eq : Bool → Bool → Bool
bool_eq true b = b
bool_eq false b = not b

-- JSON.stringify(manifest.migrations) === JSON.stringify(current.migration)
same_migrations : Migrations → Option Migrations → Bool
unfolding bool_eq
same_migrations m none = false
same_migrations m (some n) =
    bool_eq m.required n.required
    && (m.from == n.from
        && (m.to == n.to
            && (bool_eq m.requires_backup n.requires_backup && bool_eq m.reversible n.reversible)))

pub lift : {A : Type 0} → Result UpdateError A → M A
lift r w = (r, w)

require : {A : Type 0} → Option A → M A
require none = throw failure
require (some a) = pure a

when : Bool → M (Unit {0}) → M (Unit {0})
when b m = if b then m else pure tt

assert_that : Bool → UpdateError → M (Unit {0})
assert_that b e = if b then pure tt else throw e

-- `fetched` is the answer to the request of the manifest, checked against the current version by
-- `validateReleaseManifest`; `validate` is that check of the staged manifest; `compose_text` is the
-- answer to the request of the compose file; `verify_sha256` and `parse_env` are the hash and the
-- parser of the runtime.
module _ (version : String) (fetched : String → Result UpdateError DruviaReleaseManifest)
    (validate : DruviaReleaseManifest → String → Result UpdateError DruviaReleaseManifest)
    (compose_text : String → String) (verify_sha256 : String → String → Bool)
    (parse_env : List EnvLine → String → Option String) where
  fetch_release_manifest : M DruviaReleaseManifest
  fetch_release_manifest = do call; s ← get_status version; lift (fetched s.current_version)

  -- The task of `checkForUpdates`.
  no_update : UpdateError → M (Unit {0})
  no_update (manifest_error code) =
      if str_eq code "NO_UPDATE_AVAILABLE"
      then write_state version (λ s. record s {
        phase = idle;
        available_version = none;
        release_notes_url = none;
        migration = none;
        operation_id = none;
      })
      else throw (manifest_error code)
  no_update e = throw e

  pub check_task : M (Unit {0})
  check_task =
      catch
        (do
          manifest ← fetch_release_manifest
          write_state version (λ s. record s {
            phase = available;
            available_version = some manifest.version;
            release_notes_url = some manifest.release_notes_url;
            migration = some manifest.migrations;
            operation_id = none;
          }))
        no_update

  -- The task of `downloadUpdate`: the manifest, the images, the compose file, the environment.
  pub download_task : M (Unit {0})
  download_task = do
    manifest ← fetch_release_manifest
    call
    before ← get_disk
    put_disk (record before { staged_manifest = some manifest })
    call
    call
    call
    call
    call
    let text = compose_text manifest.compose_url
    assert_that (verify_sha256 text manifest.compose_sha256) failure
    call
    disk ← get_disk
    put_disk (record disk { staged_compose = some text })
    call
    disk' ← get_disk
    put_disk (record disk' {
      staged_env = some (merge_env_content disk'.files.env (release_env manifest));
    })
    call
    write_state version (λ s. record s {
      phase = ready_to_apply;
      available_version = some manifest.version;
      release_notes_url = some manifest.release_notes_url;
      migration = some manifest.migrations;
      operation_id = none;
    })

  env_matches : List EnvLine → List (String × String) → Bool
  env_matches env [] = true
  env_matches env ((k, v) ∷ us) = opt_is (parse_env env k) v && env_matches env us

  abbrev invalid_assets : UpdateError
  invalid_assets = precondition "UPDATE_STAGED_ASSETS_INVALID"

  -- What `applyUpdate` checks before it touches anything: the release that it will switch to.
  check_staged : M (DruviaReleaseManifest × ReleaseFiles)
  check_staged = do
    current ← get_status version
    disk ← get_disk
    staged ← require disk.staged_manifest
    manifest ← lift (validate staged current.current_version)
    compose ← require disk.staged_compose
    assert_that
        (opt_is current.available_version manifest.version
          && (same_migrations manifest.migrations current.migration
              && verify_sha256 compose manifest.compose_sha256))
        invalid_assets
    env ← require disk.staged_env
    assert_that (env_matches env (release_env manifest)) invalid_assets
    pure (manifest, record { env = env; compose = compose })

  -- The backup of the release files, and of the database where the migrations ask for it. The two
  -- copies are one entry.
  make_backup : String → DruviaReleaseManifest → M (Unit {0})
  make_backup id manifest = do
    call
    call
    call
    disk ← get_disk
    put_disk (record disk { backups = (id, disk.files) ∷ disk.backups })
    when manifest.migrations.requires_backup (do call; call; call)
    call
    write_state version (λ s. record s { apply_stage = some backup_ready })

  -- The renames of the staged files, the migration, the start and the verification.
  switch_files : DruviaReleaseManifest → ReleaseFiles → M (Unit {0})
  switch_files manifest files = do
    call
    disk ← get_disk
    put_disk (record disk {
      files = record disk.files { compose = files.compose };
      staged_compose = none;
    })
    call
    disk' ← get_disk
    put_disk (record disk' { files = record disk'.files { env = files.env }; staged_env = none })
    call
    when manifest.migrations.required call
    call
    write_state version (λ s. record s { phase = verifying })
    call

  -- The automatic rollback, which ends the operation.
  undo_switch : String → UpdateError → M Bool
  undo_switch id e = do
    catch (roll_back version id) (λ _. throw rollback_recovery_required)
    write_state version (λ s. record s {
      phase = rolled_back;
      available_version = none;
      error = some (normalize_error e);
      operation_id = none;
      apply_stage = none;
    })
    pure false

  deploy : String → DruviaReleaseManifest → ReleaseFiles → M Bool
  deploy id manifest files =
      catch
        (do
          write_state version (λ s. record s { apply_stage = some files_switched })
          switch_files manifest files
          pure true)
        (undo_switch id)

  finish_apply : String → DruviaReleaseManifest → M (Unit {0})
  finish_apply id manifest = do
    write_state version (λ s. record s {
      phase = finalizing;
      current_version = manifest.version;
      last_applied_backup = some (record { operation_id = id; target_version = manifest.version });
      apply_stage = none;
      available_version = none;
      release_notes_url = some manifest.release_notes_url;
      migration = some manifest.migrations;
    })
    catch call (λ _. write_state version (λ s. record s { phase = succeeded; operation_id = none }))

  -- The task of `applyUpdate`.
  pub apply_task : String → M (Unit {0})
  apply_task id = do
    (manifest, files) ← check_staged
    make_backup id manifest
    deployed ← deploy id manifest files
    when deployed (finish_apply id manifest)

  abbrev not_ready : DruviaUpdateStatus → DruviaUpdatePhase → M (Option String)
  not_ready s ready_to_apply = pure none
  not_ready s _ = throw (precondition "UPDATE_NOT_READY")

  pub start_check : String → M DruviaUpdateStatus
  start_check id = start_operation version checking id false (λ _. pure none)

  pub start_download : String → M DruviaUpdateStatus
  start_download id = start_operation version downloading id false (λ _. pure none)

  pub start_apply : String → M DruviaUpdateStatus
  start_apply id = start_operation version applying id false (λ s. not_ready s s.phase)

  pub start_restart : String → M DruviaUpdateStatus
  start_restart id = start_operation version restarting id false (λ _. pure none)

  pub restart_task : M (Unit {0})
  restart_task = do
    call
    write_state version (λ s. record s { phase = succeeded; operation_id = none })
