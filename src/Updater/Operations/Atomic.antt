-- ===== src/Updater/Operations/Atomic.antt =====
-- Applying an update: the release files change together with the version, or they are those from
-- before, or the status asks for the rollback to a backup that holds them.
pub mod Outcome
use druvia.Prelude.{
  ℕ, String, str_eq, str_eq_self, ◌≡◌, refl, ◌⊎◌, inl, inr, Bool, true, false, Option, none, some,
  List, ◌∷◌, Result, ok, err, arith, if◌then◌else◌, subst, ◌&&◌,
}
use druvia.Updater.Status.{
  DruviaUpdateStatus, DruviaReleaseManifest, finalizing, succeeded, failed, rolled_back, verifying,
  files_switched, backup_ready,
}
use druvia.Updater.World.{
  M, World, Disk, ReleaseFiles, EnvLine, UpdateError, rollback_recovery_required, failure, pure,
  throw, call, catch, ◌>>=◌, ◌>>◌, get_disk, put_disk, write_state, stored_status, get_status,
  normalize_error,
}
use druvia.Updater.World.Triple.{
  Triple, triple_pure, triple_throw, triple_call, triple_catch, triple_bind, triple_get_disk,
  triple_put_disk, triple_write_state, triple_given, triple_fact, triple_weaken, triple_result,
  triple_get_status,
}
use druvia.Updater.Start.{recovery_code}
use druvia.Updater.Rollback.{lookup_backup, roll_back}
use druvia.Updater.Rollback.Restores.{IsStable, roll_back_restores}
use druvia.Updater.Operations.{
  lift, require, when, assert_that, check_staged, make_backup, switch_files, undo_switch, deploy,
  finish_apply, apply_task, env_matches, release_env,
}

module _ (version : String) (fetched : String → Result UpdateError DruviaReleaseManifest)
    (validate : DruviaReleaseManifest → String → Result UpdateError DruviaReleaseManifest)
    (compose_text : String → String) (verify_sha256 : String → String → Bool)
    (parse_env : List EnvLine → String → Option String) (id : String) (before : ReleaseFiles)
    (old : String) where
  -- The version of the status.
  abbrev runs : Disk → String
  runs d = (stored_status version d).current_version

  -- Nothing is changed yet.
  abbrev Untouched : Disk → Type 0
  Untouched d = (d.files ≡ before) × (runs d ≡ old)

  abbrev BackedUp : Disk → Type 0
  BackedUp d = (d.files ≡ before) × (runs d ≡ old) × (lookup_backup id d.backups ≡ some before)

  -- The files may have been switched: the status says so, and the backup is there.
  abbrev Recoverable : Disk → Type 0
  Recoverable d =
      (runs d ≡ old)
      × (lookup_backup id d.backups ≡ some before)
      × ((stored_status version d).apply_stage ≡ some files_switched)

  stable : IsStable version id before Recoverable
  stable = record { files = λ d f h. h; verified = λ d h. h; kept = λ d h. h.1 }

  -- How the task throws: before the switch, or with the files to be recovered.
  abbrev Thrown : UpdateError → Disk → Type 0
  Thrown e d = Untouched d ⊎ ((e ≡ rollback_recovery_required) × Recoverable d)

  abbrev Switched : DruviaReleaseManifest → ReleaseFiles → Disk → Type 0
  Switched manifest files d = Recoverable d × (d.files ≡ files)

  abbrev RolledBack : Disk → Type 0
  RolledBack d =
      (d.files ≡ before) × (runs d ≡ old) × ((stored_status version d).phase ≡ rolled_back)

  abbrev task :
      {A : Type 0}
      → ((v : String)
          → (String → Result UpdateError DruviaReleaseManifest)
          → (DruviaReleaseManifest → String → Result UpdateError DruviaReleaseManifest)
          → (String → String)
          → (String → String → Bool)
          → (List EnvLine → String → Option String)
          → A)
      → A
  task f = f version fetched validate compose_text verify_sha256 parse_env

  undone :
      (e : UpdateError)
      → Triple id Recoverable (task undo_switch id e) (λ b d. (b ≡ false) × RolledBack d) Thrown
  unfolding undo_switch
  undone e =
      triple_bind id (λ _ d. Recoverable d × (d.files ≡ before)) _ _
        (triple_catch id _ _ (roll_back_restores id version id before stable)
          (λ _. triple_throw id rollback_recovery_required (λ d r. inr (refl, r))))
        λ _.
          triple_bind id (λ _. RolledBack) _ _
            (triple_write_state id version _ (λ d h. (h.1, h.0.0, refl)))
            λ _. triple_pure id false (λ d q. (refl, q))

  recorded :
      (a d : Disk)
      → Untouched d × (a ≡ d)
      → BackedUp (record a { backups = (id, a.files) ∷ a.backups })
  unfolding lookup_backup
  recorded a d h = ground (arith, str_eq_self id)

  module _ (manifest : DruviaReleaseManifest) (files : ReleaseFiles) where
    abbrev New : Disk → Type 0
    New d = Recoverable d × (d.files ≡ files)

    kept_new : Triple id New call (λ _. New) (λ _. Recoverable)
    kept_new = triple_call id (λ d n. n) (λ e d n. n.0)

    started :
        Triple id New
          (call >> (write_state version (λ s. record s { phase = verifying }) >> call))
          (λ _. New)
          (λ _. Recoverable)
    started =
        triple_bind id (λ _. New) _ _ kept_new
          λ _.
            triple_bind id (λ _. New) _ _ (triple_write_state id version _ (λ d n. n)) λ _. kept_new

    migrated : (b : Bool) → Triple id New (when b call) (λ _. New) (λ _. Recoverable)
    unfolding when
    migrated true = kept_new
    migrated false = triple_pure id tt (λ d n. n)

    switched :
        Triple id Recoverable (task switch_files manifest files) (λ _. New) (λ _. Recoverable)
    unfolding switch_files
    switched =
        triple_bind id (λ _. Recoverable) _ _ (triple_call id (λ d r. r) (λ e d r. r))
          λ _.
            triple_bind id (λ a d. Recoverable d × (a ≡ d)) _ _
              (triple_get_disk id (λ d r. (r, refl)))
              λ a.
                triple_bind id (λ _ d. Recoverable d × (d.files.compose ≡ files.compose)) _ _
                  (triple_put_disk id _ (λ d h. ground arith))
                  λ _.
                    triple_bind id (λ _ d. Recoverable d × (d.files.compose ≡ files.compose)) _ _
                      (triple_call id (λ d r. r) (λ e d r. r.0))
                      λ _.
                        triple_bind id
                          (λ a d. Recoverable d × (d.files.compose ≡ files.compose) × (a ≡ d)) _ _
                          (triple_get_disk id (λ d r. (r.0, r.1, refl)))
                          λ a.
                            triple_bind id (λ _. New) _ _
                              (triple_put_disk id _ (λ d h. ground arith))
                              λ _.
                                triple_bind id (λ _. New) _ _ kept_new
                                  λ _.
                                    triple_bind id (λ _. New) _ _
                                      (migrated manifest.migrations.required) λ _. started

    deployed :
        Triple id BackedUp
          (task deploy id manifest files)
          (λ b d. ((b ≡ true) × New d) ⊎ ((b ≡ false) × RolledBack d))
          Thrown
    unfolding deploy
    deployed =
        triple_catch id _ _
          (triple_bind id (λ _. Recoverable) _ _
            (triple_write_state id version _ (λ d h. (h.1, h.2, refl)))
            λ _.
              triple_bind id (λ _. New) _ _ switched
                λ _. triple_pure id true (λ d n. inl (refl, n)))
          (λ e. triple_weaken id _ (λ d r. r) (λ b d q. inr q) (λ x d q. q) (undone e))

    -- The files of the manifest's release are in place, and the status names its version.
    abbrev Deployed : Disk → Type 0
    Deployed d =
        (d.files ≡ files)
        × (runs d ≡ manifest.version)
        × (((stored_status version d).phase ≡ finalizing)
            ⊎ ((stored_status version d).phase ≡ succeeded))

    finished : Triple id New (task finish_apply id manifest) (λ _. Deployed) Thrown
    unfolding finish_apply
    finished =
        triple_bind id (λ _. Deployed) _ _
          (triple_write_state id version _ (λ d n. (n.1, refl, inl refl)))
          λ _.
            triple_catch id {R = λ _. Deployed} _ _ (triple_call id (λ d q. q) (λ e d q. q))
              λ _. triple_write_state id version _ (λ d q. (q.0, q.1, inr refl))

    ended :
        (b : Bool)
        → Triple id
            (λ d. ((b ≡ true) × New d) ⊎ ((b ≡ false) × RolledBack d))
            (when b (task finish_apply id manifest))
            (λ _ d. Deployed d ⊎ RolledBack d)
            Thrown
    unfolding when
    ended true =
        triple_weaken id _ (λ d h. elim h [ inl n ↦ n.1 | inr r ↦ absurd (cc (r.0)) ])
          (λ u d q. inl q) (λ e d q. q) finished
    ended false = triple_pure id tt (λ d h. elim h [ inl n ↦ absurd (cc (n.0)) | inr r ↦ inr r.1 ])

    backup_done :
        Triple id BackedUp
          (write_state version (λ s. record s { apply_stage = some backup_ready }))
          (λ _. BackedUp)
          (λ _. Untouched)
    backup_done = triple_write_state id version _ (λ d h. h)

    backed_call : Triple id BackedUp call (λ _. BackedUp) (λ _. Untouched)
    backed_call = triple_call id (λ d h. h) (λ e d h. (h.0, h.1))

    dumped :
        (b : Bool)
        → Triple id BackedUp (when b (call >> (call >> call))) (λ _. BackedUp) (λ _. Untouched)
    unfolding when
    dumped true =
        triple_bind id (λ _. BackedUp) _ _ backed_call
          λ _. triple_bind id (λ _. BackedUp) _ _ backed_call λ _. backed_call
    dumped false = triple_pure id tt (λ d h. h)

    untouched_call : Triple id Untouched call (λ _. Untouched) (λ _. Untouched)
    untouched_call = triple_call id (λ d h. h) (λ e d h. h)

    backed_up : Triple id Untouched (task make_backup id manifest) (λ _. BackedUp) (λ _. Untouched)
    unfolding make_backup
    backed_up =
        triple_bind id (λ _. Untouched) _ _ untouched_call
          λ _.
            triple_bind id (λ _. Untouched) _ _ untouched_call
              λ _.
                triple_bind id (λ _. Untouched) _ _ untouched_call
                  λ _.
                    triple_bind id (λ a d. Untouched d × (a ≡ d)) _ _
                      (triple_get_disk id (λ d h. (h, refl)))
                      λ a.
                        triple_bind id (λ _. BackedUp) _ _
                          (triple_put_disk id _ (λ d h. recorded a d h))
                          λ _.
                            triple_bind id (λ _. BackedUp) _ _
                              (dumped manifest.migrations.requires_backup)
                              λ _. triple_bind id (λ _. BackedUp) _ _ backed_call λ _. backup_done

  kept_require :
      {A : Type 0} (o : Option A)
      → Triple id Untouched (require o) (λ _. Untouched) (λ _. Untouched)
  unfolding require
  kept_require none = triple_throw id failure (λ d u. u)
  kept_require (some a) = triple_pure id a (λ d u. u)

  kept_lift :
      {A : Type 0} (r : Result UpdateError A)
      → Triple id Untouched (lift r) (λ a d. Untouched d × (r ≡ ok a)) (λ _. Untouched)
  unfolding lift
  kept_lift (ok a) = triple_result id (ok a) (λ d u. (u, refl))
  kept_lift (err e) = triple_result id (err e) (λ d u. u)

  kept_assert :
      (b : Bool) (e : UpdateError)
      → Triple id Untouched (assert_that b e) (λ _ d. Untouched d × (b ≡ true)) (λ _. Untouched)
  unfolding assert_that
  kept_assert true e = triple_pure id tt (λ d u. (u, refl))
  kept_assert false e = triple_throw id e (λ d u. u)

  -- The manifest is the answer of `validateReleaseManifest` for the version from before, the compose
  -- file has the hash that it names, and the environment names its images and its version.
  abbrev IsRelease : DruviaReleaseManifest → ReleaseFiles → Type 0
  IsRelease manifest files =
      ((staged : DruviaReleaseManifest) × (validate staged old ≡ ok manifest))
      × (verify_sha256 files.compose manifest.compose_sha256 ≡ true)
      × (task env_matches files.env (release_env manifest) ≡ true)

  abbrev Checked : DruviaReleaseManifest × ReleaseFiles → Disk → Type 0
  Checked mf d = Untouched d × IsRelease mf.0 mf.1

  last_true : (a b c : Bool) → (a && (b && c)) ≡ true → c ≡ true
  last_true a b c h = ground arith

  checked : Triple id Untouched (task check_staged) Checked (λ _. Untouched)
  unfolding check_staged
  checked =
      triple_bind id (λ current d. Untouched d × (current.current_version ≡ old)) _ _
        (triple_get_status id version (λ d u. (u, u.1)))
        λ current. triple_fact id (current.current_version ≡ old) _ λ same.
          triple_bind id (λ _. Untouched) _ _ (triple_get_disk id (λ d u. u))
            λ disk.
              triple_bind id (λ _. Untouched) _ _ (kept_require disk.staged_manifest)
                λ staged.
                  triple_bind id
                    (λ m d. Untouched d × (validate staged current.current_version ≡ ok m)) _ _
                    (kept_lift _)
                    λ manifest.
                      triple_fact id (validate staged current.current_version ≡ ok manifest) _
                        λ valid.
                          triple_bind id (λ _. Untouched) _ _ (kept_require disk.staged_compose)
                            λ compose.
                              triple_bind id
                                (λ _ d.
                                  Untouched d
                                  × (verify_sha256 compose manifest.compose_sha256 ≡ true))
                                _ _
                                (triple_weaken id _ (λ d u. u) (λ u d q. (q.0, last_true _ _ _ q.1))
                                  (λ e d q. q) (kept_assert _ _))
                                λ _.
                                  triple_fact id
                                    (verify_sha256 compose manifest.compose_sha256 ≡ true) _
                                    λ hashed.
                                      triple_bind id (λ _. Untouched) _ _
                                        (kept_require disk.staged_env)
                                        λ env.
                                          triple_bind id
                                            (λ _ d.
                                              Untouched d
                                              × (task env_matches env (release_env manifest)
                                                  ≡ true))
                                            _ _ (kept_assert _ _)
                                            λ _. triple_pure id _ λ d q. (
                                              q.0,
                                              (
                                                (
                                                  staged,
                                                  subst (λ v. validate staged v ≡ ok manifest) same
                                                      valid,
                                                ),
                                                hashed,
                                                q.1,
                                              ),
                                            )

  -- The files of a release that was checked are in place, and the status names its version.
  abbrev Applied : Disk → Type 0
  Applied d =
      (mf : DruviaReleaseManifest × ReleaseFiles) × IsRelease mf.0 mf.1 × Deployed mf.0 mf.1 d

  applied : Triple id Untouched (task apply_task id) (λ _ d. Applied d ⊎ RolledBack d) Thrown
  unfolding apply_task
  applied =
      triple_bind id Checked _ _
        (triple_weaken id _ (λ d u. u) (λ a d q. q) (λ e d q. inl q) checked)
        λ mf.
          triple_given id (IsRelease mf.0 mf.1) _ (λ d q. q.1)
            λ fits.
              triple_bind id (λ _. BackedUp) _ _
                (triple_weaken id _ (λ d q. q.0) (λ a d q. q) (λ e d q. inl q)
                  (backed_up mf.0 mf.1))
                λ _.
                  triple_bind id
                    (λ b d. ((b ≡ true) × New mf.0 mf.1 d) ⊎ ((b ≡ false) × RolledBack d)) _ _
                    (deployed mf.0 mf.1)
                    λ b.
                      triple_weaken id _ (λ d q. q)
                        (λ u d q. elim q [
                          | inl done ↦ inl ((mf, fits, done))
                          | inr back ↦ inr back
                        ])
                        (λ e d q. q) (ended mf.0 mf.1 b)
