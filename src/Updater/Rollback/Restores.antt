-- ===== src/Updater/Rollback/Restores.antt =====
-- A rollback that succeeds has put the backup's files in place; one that fails has kept the backup.
use druvia.Prelude.{ℕ, zero, suc, String, ◌≡◌, refl, Bool, true, false, some, arith, if◌then◌else◌}
use druvia.Updater.Status.{verifying}
use druvia.Updater.World.{
  M, Disk, ReleaseFiles, UpdateError, failure, CallResult, succeeds, missing, fails, pure, throw,
  call, call?, ◌>>◌, get_disk, write_state, stored_status,
}
use druvia.Updater.World.Triple.{
  Triple, triple_pure, triple_throw, triple_call, triple_call?, triple_catch, triple_bind,
  triple_get_disk, triple_put_disk, triple_write_state, triple_given, triple_weaken,
}
use druvia.Updater.Rollback.{
  lookup_backup, stop_one, stop_each, stop_rollback_services, wait_for_lock,
  prepare_projection_rollback, copy_env, copy_compose, restore_files, restore_backup,
  rollback_steps, abort_rollback, complete_projection_rollback, roll_back,
}

-- The calls of a rollback leave the disk alone.
module _ (op : String) {P : Disk → Type 0} where
  kept_call : Triple op P call (λ _. P) (λ _. P)
  kept_call = triple_call op (λ d p. p) (λ e d p. p)

  kept_then :
      {A : Type 0} {Q : A → Disk → Type 0} (m : M (Unit {0})) (n : M A)
      → Triple op P m (λ _. P) (λ _. P)
      → Triple op P n Q (λ _. P)
      → Triple op P (m >> n) Q (λ _. P)
  kept_then m n tm tn = triple_bind op (λ _. P) m (λ _. n) tm (λ _. tn)

  kept_stop_one : (b : Bool) → Triple op P (stop_one b) (λ _. P) (λ _. P)
  unfolding stop_one
  kept_stop_one b = triple_bind op (λ _. P) call? _ (triple_call? op) answer
    where
      answer :
          (r : CallResult)
          → Triple op P (elim r [ fails ↦ pure true | _ ↦ pure b ]) (λ _. P) (λ _. P)
      answer succeeds = triple_pure op b (λ d p. p)
      answer missing = triple_pure op b (λ d p. p)
      answer fails = triple_pure op true (λ d p. p)

  kept_end : (b : Bool) → Triple op P (if b then throw failure else pure tt) (λ _. P) (λ _. P)
  kept_end true = triple_throw op failure (λ d p. p)
  kept_end false = triple_pure op tt (λ d p. p)

  kept_stop_each : Triple op P stop_each (λ _. P) (λ _. P)
  unfolding stop_each
  kept_stop_each =
      triple_bind op (λ _. P) (stop_one false) _ (kept_stop_one false)
        λ a.
          triple_bind op (λ _. P) (stop_one a) _ (kept_stop_one a)
            λ b. triple_bind op (λ _. P) (stop_one b) _ (kept_stop_one b) kept_end

  pub kept_stop : Triple op P stop_rollback_services (λ _. P) (λ _. P)
  unfolding stop_rollback_services
  kept_stop = triple_bind op (λ _. P) call? _ (triple_call? op) answer
    where
      answer :
          (r : CallResult)
          → Triple op P
              (elim r [ succeeds ↦ pure tt | missing ↦ stop_each | fails ↦ throw failure ])
              (λ _. P)
              (λ _. P)
      answer succeeds = triple_pure op tt (λ d p. p)
      answer missing = kept_stop_each
      answer fails = triple_throw op failure (λ d p. p)

  kept_wait : (n : ℕ) → Triple op P (wait_for_lock n) (λ _. P) (λ _. P)
  unfolding wait_for_lock
  kept_wait zero = triple_throw op failure (λ d p. p)
  kept_wait (suc n) = triple_catch op call _ kept_call (λ _. kept_wait n)

  kept_prepare : Triple op P prepare_projection_rollback (λ _. P) (λ _. P)
  unfolding prepare_projection_rollback
  kept_prepare = kept_then _ _ kept_stop (
      kept_then _ _ kept_call (
        kept_then _ _ kept_call (kept_then _ _ kept_call (kept_then _ _ kept_call (kept_wait 40)))))

-- `I` survives a change of the release files and of the phase, and knows the backup.
pub record IsStable (version id : String) (backup : ReleaseFiles) (I : Disk → Type 0) : Type 0 where
  pub files : (d : Disk) (f : ReleaseFiles) → I d → I (record d { files = f })
  pub verified :
      (d : Disk)
      → I d
      → I (record d { status = some (record (stored_status version d) { phase = verifying }) })
  pub kept : (d : Disk) → I d → lookup_backup id d.backups ≡ some backup

module _ (op version id : String) (backup : ReleaseFiles) {I : Disk → Type 0}
    (stable : IsStable version id backup I) where
  restored_env : Triple op I (copy_env backup) (λ _ d. I d × (d.files.env ≡ backup.env)) (λ _. I)
  unfolding copy_env
  restored_env =
      triple_bind op (λ _. I) call _ (kept_call op)
        λ _.
          triple_bind op (λ a d. I d × (a ≡ d)) get_disk _ (triple_get_disk op (λ d i. (i, refl)))
            λ a. triple_put_disk op _ λ d h. (stable.files a _ (rw h.1 h.0), refl)

  restored_compose :
      Triple op
        (λ d. I d × (d.files.env ≡ backup.env))
        (copy_compose backup)
        (λ _ d. I d × (d.files ≡ backup))
        (λ _. I)
  unfolding copy_compose
  restored_compose =
      triple_bind op (λ _ d. I d × (d.files.env ≡ backup.env)) call _
        (triple_call op (λ d p. p) (λ e d p. p.0))
        λ _.
          triple_bind op (λ a d. I d × (d.files.env ≡ backup.env) × (a ≡ d)) get_disk _
            (triple_get_disk op (λ d p. (p.0, p.1, refl)))
            λ a. triple_put_disk op _ λ d h. (stable.files a _ (rw h.2 h.0), ground arith)

  abbrev Restored : Unit {0} → Disk → Type 0
  Restored _ d = I d × (d.files ≡ backup)

  from_files : Triple op I (restore_files (some backup)) Restored (λ _. I)
  unfolding restore_files
  from_files =
      triple_bind op (λ _ d. I d × (d.files.env ≡ backup.env)) _ _ restored_env
        λ _.
          triple_bind op Restored _ _ restored_compose λ _. triple_call op (λ d p. p) (λ e d p. p.0)

  -- The steps after the files are restored.
  after :
      {P : Disk → Type 0}
      → ((d : Disk)
          → P d
          → P (record d { status = some (record (stored_status version d) { phase = verifying }) }))
      → Triple op P
          (call
            >> (call
                >> (call
                    >> (call
                        >> (call
                            >> (write_state version (λ s. record s { phase = verifying })
                                >> (call >> (call >> (call >> (call >> call))))))))))
          (λ _. P)
          (λ _. P)
  after verified = kept_then op _ _ (kept_call op) (
      kept_then op _ _ (kept_call op) (
        kept_then op _ _ (kept_call op) (
          kept_then op _ _ (kept_call op) (
            kept_then op _ _ (kept_call op) (
              kept_then op _ _ (triple_write_state op version _ verified) (
                kept_then op _ _ (kept_call op) (
                  kept_then op _ _ (kept_call op) (
                    kept_then op _ _ (kept_call op)
                      (kept_then op _ _ (kept_call op) (kept_call op))))))))))

  aborted : (e : UpdateError) → Triple op I (abort_rollback version e) Restored (λ _. I)
  unfolding abort_rollback
  aborted e =
      kept_then op _ _
        (triple_catch op _ _ (kept_call op) (λ enabling.
          kept_then op _ _ (kept_stop op) (triple_throw op {E = λ _. I} enabling (λ d p. p))))
        (kept_then op _ _ (kept_stop op) (triple_throw op {E = λ _. I} e (λ d p. p)))

  restored : Triple op I (restore_backup id) (λ _ d. I d × (d.files ≡ backup)) (λ _. I)
  unfolding restore_backup
  restored =
      triple_bind op (λ a d. I d × (a ≡ d)) get_disk _ (triple_get_disk op (λ d i. (i, refl)))
        λ a.
          triple_given op (lookup_backup id a.backups ≡ some backup) _
            (λ d h. rw h.1 (stable.kept d h.0))
            λ found. triple_weaken op _ (λ d h. h.0) (λ u d q. q) (λ e d q. q) (rw found from_files)

  steps : Triple op I (rollback_steps version id) (λ _ d. I d × (d.files ≡ backup)) (λ _. I)
  unfolding rollback_steps
  steps = kept_then op _ _ (kept_call op) (
      triple_bind op Restored (restore_backup id) _ restored λ _.
        triple_weaken op _ (λ d q. q) (λ u d q. q) (λ e d q. q.0)
          (after (λ d q. (stable.verified d q.0, q.1))))

  -- After a rollback, the release files are those of the backup, or, if it throws, the backup is
  -- still there.
  pub roll_back_restores :
      Triple op I (roll_back version id) (λ _ d. I d × (d.files ≡ backup)) (λ _. I)
  unfolding roll_back complete_projection_rollback
  roll_back_restores = kept_then op _ _ (kept_prepare op) (triple_catch op _ _ steps λ e. aborted e)
