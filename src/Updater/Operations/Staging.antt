-- ===== src/Updater/Operations/Staging.antt =====
-- apps/updater/src/update-service.ts: how the background task of a download ends.
use druvia.Prelude.{
  String, ◌≡◌, refl, ◌⊎◌, inl, inr, Bool, true, false, Option, none, some, List, Result, ok, err,
}
use druvia.Updater.Status.{DruviaReleaseManifest, ready_to_apply, failed}
use druvia.Updater.World.{
  World, Disk, ReleaseFiles, EnvLine, UpdateError, failure, call, stored_status,
}
use druvia.Updater.World.Triple.{
  Triple, triple_pure, triple_throw, triple_call, triple_bind, triple_get_disk, triple_get_status,
  triple_put_disk, triple_result, triple_weaken, triple_write_state,
}
use druvia.Updater.Start.{run_operation, handle_operation_failure}
use druvia.Updater.Start.Ends.{run_operation-ends}
use druvia.Updater.Operations.{
  lift, assert_that, merge_env_content, release_env, fetch_release_manifest, download_task,
}

module _ (version : String) (fetched : String → Result UpdateError DruviaReleaseManifest)
    (validate : DruviaReleaseManifest → String → Result UpdateError DruviaReleaseManifest)
    (compose_text : String → String) (verify_sha256 : String → String → Bool)
    (parse_env : List EnvLine → String → Option String) where
  module _ (id : String) (before : ReleaseFiles) (old : String)
      (kept : List (String × ReleaseFiles)) where
    -- The files in use, the version and the backups are those from before.
    abbrev pub Kept : Disk → Type 0
    Kept d =
        (d.files ≡ before) × ((stored_status version d).current_version ≡ old) × (d.backups ≡ kept)

    abbrev Fetched : DruviaReleaseManifest → Disk → Type 0
    Fetched m d = Kept d × (d.staged_manifest ≡ some m)

    abbrev text_of : DruviaReleaseManifest → String
    text_of m = compose_text m.compose_url

    abbrev Verified : DruviaReleaseManifest → Disk → Type 0
    Verified m d = Fetched m d × (verify_sha256 (text_of m) m.compose_sha256 ≡ true)

    abbrev Composed : DruviaReleaseManifest → Disk → Type 0
    Composed m d = Verified m d × (d.staged_compose ≡ some (text_of m))

    abbrev pub Staged : DruviaReleaseManifest → Disk → Type 0
    Staged m d = Composed m d × (d.staged_env ≡ some (merge_env_content before.env (release_env m)))

    -- A complete release is staged, and the status offers it.
    abbrev pub Ready : Disk → Type 0
    Ready d =
        (m : DruviaReleaseManifest) × Staged m d
        × ((stored_status version d).available_version ≡ some m.version)
        × ((stored_status version d).phase ≡ ready_to_apply)

    kept_call :
        {P : Disk → Type 0} → ((d : Disk) → P d → Kept d) → Triple id P call (λ _. P) (λ _. Kept)
    kept_call imp = triple_call id (λ d p. p) (λ e d p. imp d p)

    kept_lift :
        (r : Result UpdateError DruviaReleaseManifest)
        → Triple id Kept (lift r) (λ _. Kept) (λ _. Kept)
    unfolding lift
    kept_lift (ok m) = triple_result id (ok m) (λ d k. k)
    kept_lift (err e) = triple_result id (err e) (λ d k. k)

    kept_fetch :
        Triple id Kept
          (fetch_release_manifest version fetched validate compose_text verify_sha256 parse_env)
          (λ _. Kept)
          (λ _. Kept)
    unfolding fetch_release_manifest
    kept_fetch =
        triple_bind id (λ _. Kept) _ _ (kept_call (λ d k. k))
          λ _.
            triple_bind id (λ _. Kept) _ _ (triple_get_status id version (λ d k. k))
              λ s. kept_lift _

    verified :
        (m : DruviaReleaseManifest) (b : Bool)
        → Triple id
            (Fetched m)
            (assert_that b failure)
            (λ _ d. Fetched m d × (b ≡ true))
            (λ _. Kept)
    unfolding assert_that
    verified m true = triple_pure id tt (λ d f. (f, refl))
    verified m false = triple_throw id failure (λ d f. f.0)

    downloaded :
        Triple id Kept
          (download_task version fetched validate compose_text verify_sha256 parse_env)
          (λ _. Ready)
          (λ _. Kept)
    unfolding download_task
    downloaded =
        triple_bind id (λ _. Kept) _ _ kept_fetch
          λ m.
            triple_bind id (λ _. Kept) _ _ (kept_call (λ d k. k))
              λ _.
                triple_bind id (λ a d. Kept d × (a ≡ d)) _ _ (triple_get_disk id (λ d k. (k, refl)))
                  λ a.
                    triple_bind id (λ _. Fetched m) _ _
                      (triple_put_disk id _ (λ d h. (rw h.1 h.0, refl)))
                      λ _.
                        triple_bind id (λ _. Fetched m) _ _ (kept_call (λ d f. f.0))
                          λ _.
                            triple_bind id (λ _. Fetched m) _ _ (kept_call (λ d f. f.0))
                              λ _.
                                triple_bind id (λ _. Fetched m) _ _ (kept_call (λ d f. f.0))
                                  λ _.
                                    triple_bind id (λ _. Fetched m) _ _ (kept_call (λ d f. f.0))
                                      λ _.
                                        triple_bind id (λ _. Fetched m) _ _ (kept_call (λ d f. f.0))
                                          λ _.
                                            triple_bind id (λ _. Verified m) _ _ (verified m _)
                                              λ _.
                                                triple_bind id (λ _. Verified m) _ _
                                                  (kept_call (λ d v. v.0.0))
                                                  λ _.
                                                    triple_bind id (λ a d. Verified m d × (a ≡ d)) _
                                                      _ (triple_get_disk id (λ d v. (v, refl)))
                                                      λ a.
                                                        triple_bind id (λ _. Composed m) _ _
                                                          (triple_put_disk id _
                                                            (λ d h. (rw h.1 h.0, refl)))
                                                          λ _.
                                                            triple_bind id (λ _. Composed m) _ _
                                                            (kept_call (λ d c. c.0.0.0))
                                                            λ _.
                                                            triple_bind id
                                                            (λ a d. Composed m d × (a ≡ d)) _ _
                                                            (triple_get_disk id (λ d c. (c, refl)))
                                                            λ a.
                                                            triple_bind id (λ _. Staged m) _ _
                                                            (triple_put_disk id _ (λ d h. (
                                                            rw h.1 h.0,
                                                            rw h.1 (rw h.0.0.0.0.0 refl),
                                                            )))
                                                            λ _.
                                                            triple_bind id (λ _. Staged m) _ _
                                                            (kept_call (λ d s. s.0.0.0.0))
                                                            λ _.
                                                            triple_write_state id version _
                                                            (λ d s. (m, s, refl, refl))

    -- The download failed, and nothing in use has changed.
    abbrev pub Failed : Disk → Type 0
    Failed d = Kept d × ((stored_status version d).phase ≡ failed)

    handled :
        (e : UpdateError)
        → Triple id Kept (handle_operation_failure version e) (λ _ d. Ready d ⊎ Failed d) (λ _ _. ⊥)
    unfolding handle_operation_failure
    handled e = triple_write_state id version _ λ d k. inr (k, refl)

  -- A download that is run while its operation is active ends with no active operation, with the
  -- release files in use, the version and the backups as they were; and either a manifest is staged
  -- with a compose file that has the manifest's hash and the environment in use with the manifest's
  -- values merged in, and the status offers that version as ready to apply, or the phase is failed.
  pub run_operation-download_task :
      (id : String) (w : World)
      → w.active_operation_id ≡ some id
      → ((run_operation version
            (download_task version fetched validate compose_text verify_sha256 parse_env)
            w).1.active_operation_id
          ≡ none)
        × (Ready id w.disk.files
              (stored_status version w.disk).current_version
              w.disk.backups
              (run_operation version
                (download_task version fetched validate compose_text verify_sha256 parse_env)
                w).1.disk
            ⊎ Failed id w.disk.files
                (stored_status version w.disk).current_version
                w.disk.backups
                (run_operation version
                  (download_task version fetched validate compose_text verify_sha256 parse_env)
                  w).1.disk)
  run_operation-download_task id w active =
      run_operation-ends version id _
        (triple_weaken id _ (λ d k. k) (λ u d r. inl r) (λ e d k. k)
          (downloaded id w.disk.files (stored_status version w.disk).current_version
            w.disk.backups))
        (handled id w.disk.files (stored_status version w.disk).current_version w.disk.backups) w
        active (refl, refl, refl)
