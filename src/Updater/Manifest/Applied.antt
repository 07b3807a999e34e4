-- ===== src/Updater/Manifest/Applied.antt =====
-- apps/updater/src/update-service.ts with manifest.ts: the version that an applied release brings.
use druvia.Prelude.{
  ℕ, String, Bool, ◌≡◌, sym, ◌⊎◌, inl, inr, Option, some, List, Result, ok, err, ◌>>=◌, subst,
}
use druvia.Prelude.Json.{Json}
use druvia.Updater.Status.{DruviaReleaseManifest, DruviaReleaseChannel}
use druvia.Updater.World.{World, Disk, EnvLine, UpdateError, manifest_error, stored_status}
use druvia.Updater.Start.{run_operation}
use druvia.Updater.Semver.{greater, compare_semver}
use druvia.Updater.Operations.{apply_task}
use druvia.Updater.Operations.Atomic.Outcome.{run_operation-apply_task}
use druvia.Updater.Manifest.{
  ValidateReleaseManifestOptions, verify_sha256, validate_release_manifest,
}
use druvia.Updater.Manifest.Accepted.{validate_release_manifest-IsAccepted}
use druvia.Updater.Manifest.Again.{manifest_json}

-- A thrown UpdateManifestError.
unfoldable pub thrown : {A : Type 0} → Result String A → Result UpdateError A
thrown (ok a) = ok a
thrown (err code) = err (manifest_error code)

returned : {A : Type 0} {a : A} (r : Result String A) → thrown r ≡ ok a → r ≡ ok a
unfolding thrown
returned (ok a) h = cc
returned (err code) h = cc

module _ (to_double : ℕ → ℕ) (host_of : String → Option String) (trim lower : String → String)
    (is_date : String → Bool) (channel : DruviaReleaseChannel) (current_updater_version : String)
    (allowed_hosts : List String) where
  -- The options of both calls.
  abbrev pub options_for : String → ValidateReleaseManifestOptions
  options_for current = record {
    current_version = current;
    channel = channel;
    current_updater_version = current_updater_version;
    allowed_hosts = allowed_hosts;
  }

  -- The check of the staged manifest, which was read from its file.
  unfoldable pub validate_staged :
      DruviaReleaseManifest → String → Result UpdateError DruviaReleaseManifest
  unfolding thrown manifest_json
  validate_staged staged current = thrown (
      validate_release_manifest to_double host_of trim lower is_date (manifest_json staged)
        (options_for current))

  staged_is_newer :
      (staged m : DruviaReleaseManifest) (current : String)
      → validate_staged staged current ≡ ok m
      → compare_semver to_double m.version current ≡ ok greater
  unfolding validate_staged
  staged_is_newer staged m current h =
      (validate_release_manifest-IsAccepted to_double host_of trim lower is_date
        (manifest_json staged) (options_for current) m (returned _ h)).newer

  -- The answer to the request of the manifest, checked for the current version.
  unfoldable pub fetched_manifest :
      (String → Result UpdateError Json) → String → Result UpdateError DruviaReleaseManifest
  unfolding thrown
  fetched_manifest answer current = answer current >>= λ payload.
      thrown (
        validate_release_manifest to_double host_of trim lower is_date payload
          (options_for current))

  module _ (answer : String → Result UpdateError Json) (compose_text sha256 : String → String)
      (parse_env : List EnvLine → String → Option String) (version id : String) where
    -- The disk after the task of an application of an update.
    abbrev pub after_apply : World → Disk
    after_apply w =
        (run_operation version
          (apply_task version (fetched_manifest answer) validate_staged compose_text
            (verify_sha256 sha256) parse_env id)
          w).1.disk

    -- An application of an update, with the check of the manifest that the updater uses, leaves the
    -- version of the status as it was, or changes it to one that compares as greater.
    pub apply_task-version :
        (w : World)
        → w.active_operation_id ≡ some id
        → ((stored_status version (after_apply w)).current_version
            ≡ (stored_status version w.disk).current_version)
          ⊎ (compare_semver to_double
                (stored_status version (after_apply w)).current_version
                (stored_status version w.disk).current_version
              ≡ ok greater)
    apply_task-version w active =
        let old = (stored_status version w.disk).current_version in
        elim ((run_operation-apply_task version (fetched_manifest answer) validate_staged
          compose_text (verify_sha256 sha256) parse_env id w active).1) [
            | inl (mf, release, deployed) ↦ inr (
                subst (λ v. compare_semver to_double v old ≡ ok greater) (sym deployed.1)
                  (staged_is_newer release.0.0 mf.0 old release.0.1))
            | inr (inl back) ↦ inl back.1
            | inr (inr (same, inl untouched)) ↦ inl untouched.1
            | inr (inr (same, inr recoverable)) ↦ inl recoverable.1.0
          ]
