-- ===== src/Updater/Manifest/Examples.antt =====
-- A manifest that is accepted, and versions compared, by manifest.ts.
use druvia.Prelude.{
  ℕ, String, str_eq, ◌≡◌, refl, ◌⊎◌, Bool, true, false, Option, none, some, List, [], ◌∷◌,
  if◌then◌else◌, ok, err,
}
use druvia.Updater.Status.{
  stable, applying, preparing_backup, DruviaReleaseImage, DruviaReleaseManifest,
  create_default_update_status,
}
use druvia.Updater.World.{World, Disk, EnvLine, assign, other, succeeds, stored_status}
use druvia.Updater.Semver.{greater, compare_parsed, compare_semver}
use druvia.Updater.Semver.Lex.{IsPreorder}
use druvia.Updater.Semver.Order.{compare_parsed-IsPreorder}
use druvia.Updater.Manifest.{ValidateReleaseManifestOptions, validate_release_manifest}
use druvia.Updater.Manifest.Accepted.{IsAccepted, validate_release_manifest-IsAccepted}
use druvia.Updater.Manifest.Again.{manifest_json, validate_release_manifest-manifest_json}
use druvia.Updater.Manifest.Applied.{apply_task-version, after_apply}

abbrev exact : ℕ → ℕ
exact n = n

abbrev host : String → Option String
host url = if_known (str_eq url "https://example.org/x")
  where
    if_known : Bool → Option String
    if_known true = some "example.org"
    if_known false = none

abbrev same : String → String
same s = s

abbrev always : String → Bool
always s = true

release_after_candidate : compare_semver exact "v1.10.0" "1.10.0-rc.2" ≡ ok greater
unfolding compare_semver
release_after_candidate = refl

numbers_by_value : compare_semver exact "1.10.0-rc.10" "1.10.0-rc.9" ≡ ok greater
unfolding compare_semver
numbers_by_value = refl

not_a_version : compare_semver exact "1.10" "1.10.0" ≡ err "INVALID_SEMVER"
unfolding compare_semver
not_a_version = refl

compare_parsed-IsPreorder_example : IsPreorder (compare_parsed exact)
compare_parsed-IsPreorder_example = compare_parsed-IsPreorder exact

abbrev hash : String
hash = "000102030405060708090a0b0c0d0e0f101112131415161718191a1b1c1d1e1f"

abbrev image : DruviaReleaseImage
image = record {
  repository = "ghcr.io/druvia/api";
  tag = "2.0.0";
  digest = "sha256:000102030405060708090a0b0c0d0e0f101112131415161718191a1b1c1d1e1f";
}

abbrev manifest : DruviaReleaseManifest
manifest = record {
  version = "2.0.0";
  channel = stable;
  created_at = "2026-01-01T00:00:00Z";
  min_updater_version = "1.0.0";
  release_notes_url = "https://example.org/x";
  compose_url = "https://example.org/x";
  compose_sha256 = hash;
  api = image;
  admin = image;
  worker = image;
  updater = image;
  migrations = record {
    required = true;
    from = 3;
    to = 4;
    requires_backup = true;
    reversible = true;
  };
}

abbrev options : ValidateReleaseManifestOptions
options = record {
  current_version = "2.0.0-rc.1";
  channel = stable;
  current_updater_version = "1.0.0";
  allowed_hosts = "example.org" ∷ [];
}

manifest_accepted :
    validate_release_manifest exact host same same always (manifest_json manifest) options
    ≡ ok manifest
unfolding validate_release_manifest compare_semver manifest_json
manifest_accepted = refl

abbrev manifest-IsAccepted : IsAccepted exact host same same always options manifest
manifest-IsAccepted =
    validate_release_manifest-IsAccepted exact host same same always (manifest_json manifest)
      options manifest manifest_accepted

validate_release_manifest-IsAccepted_example :
    IsAccepted exact host same same always options manifest
validate_release_manifest-IsAccepted_example =
    validate_release_manifest-IsAccepted exact host same same always (manifest_json manifest)
      options manifest manifest_accepted

validate_release_manifest-manifest_json_example :
    validate_release_manifest exact host same same always (manifest_json manifest) options
    ≡ ok manifest
validate_release_manifest-manifest_json_example =
    validate_release_manifest-manifest_json exact host same same always options manifest
      manifest-IsAccepted

parse : List EnvLine → String → Option String
parse [] key = none
parse (assign name value ∷ rest) key = if str_eq name key then some value else parse rest key
parse (other line ∷ rest) key = parse rest key

abbrev image_ref : String
image_ref =
    "ghcr.io/druvia/api@sha256:000102030405060708090a0b0c0d0e0f101112131415161718191a1b1c1d1e1f"

abbrev assignments : String → List EnvLine
assignments v =
    assign "DRUVIA_VERSION" v
    ∷ assign "DRUVIA_API_IMAGE" image_ref
    ∷ assign "DRUVIA_ADMIN_IMAGE" image_ref
    ∷ assign "DRUVIA_WORKER_IMAGE" image_ref
    ∷ assign "DRUVIA_UPDATER_IMAGE" image_ref
    ∷ []

abbrev world : World
world = record {
  disk = record {
    status = some record (create_default_update_status "2.0.0-rc.1") {
      phase = applying;
      available_version = some "2.0.0";
      migration = some manifest.migrations;
      operation_id = some "op";
      apply_stage = some preparing_backup;
    };
    files = record { env = assignments "2.0.0-rc.1"; compose = "old" };
    staged_manifest = some manifest;
    staged_compose = some "new";
    staged_env = some (assignments "2.0.0");
    backups = [];
  };
  active_operation_id = some "op";
  results = λ n. succeeds;
  calls = 0;
}

abbrev applied : World → Disk
applied w =
    after_apply exact host same same always stable "1.0.0" ("example.org" ∷ [])
      (λ current. ok (manifest_json manifest)) same (λ payload. hash) parse "2.0.0-rc.1" "op" w

apply_task-version_example :
    ((stored_status "2.0.0-rc.1" (applied world)).current_version
      ≡ (stored_status "2.0.0-rc.1" world.disk).current_version)
    ⊎ (compare_semver exact
          (stored_status "2.0.0-rc.1" (applied world)).current_version
          (stored_status "2.0.0-rc.1" world.disk).current_version
        ≡ ok greater)
apply_task-version_example =
    apply_task-version exact host same same always stable "1.0.0" ("example.org" ∷ [])
      (λ current. ok (manifest_json manifest)) same (λ payload. hash) parse "2.0.0-rc.1" "op" world
      refl
