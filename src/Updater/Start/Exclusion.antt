-- ===== src/Updater/Start/Exclusion.antt =====
-- apps/updater/src/update-service.ts: an operation is active only after it was admitted.
use druvia.Prelude.{
  String, ◌≡◌, refl, sym, Bool, true, false, ◌&&◌, not, opt_is, if◌then◌else◌, Option, none, some,
  Result, ok, err,
}
use druvia.Updater.Status.{DruviaUpdatePhase, DruviaUpdateStatus, is_druvia_update_mutating_phase}
use druvia.Updater.World.{
  M, World, Disk, UpdateError, operation_in_progress, precondition, pure, throw, catch, recover,
  ◌>>=◌, ◌>>◌, get_status, get_disk, put_disk,
}
use druvia.Updater.World.Triple.{
  Triple, Post, triple_pure, triple_throw, triple_bind, triple_get_disk, triple_get_status,
  triple_put_disk,
}
use druvia.Updater.Start.{
  recovery_code, set_active, started_status, admit, start_checked, start_operation,
}

abbrev pub Anything : Disk → Type 0
Anything d = Unit {0}

-- The action keeps the active operation.
abbrev pub KeepsActive : {A : Type 0} → String → M A → Type 0
KeepsActive id m = Triple id Anything m (λ _. Anything) (λ _. Anything)

module _ (version : String) (phase : DruviaUpdatePhase) (id : String) (allow : Bool)
    (select : DruviaUpdateStatus → M (Option String)) where
  -- What the status holds once the operation is admitted.
  abbrev pub Admitted : DruviaUpdateStatus → Disk → Type 0
  Admitted s d = (d.status ≡ some s) × (s.operation_id ≡ some id) × (s.phase ≡ phase)

  -- The state after a call that may have admitted the operation.
  abbrev pub Called : World → Result UpdateError DruviaUpdateStatus → World → Type 0
  Called w (ok s) w' =
      (w.active_operation_id ≡ none) × (w'.active_operation_id ≡ some id) × Admitted s w'.disk
  Called w (err e) w' = w'.active_operation_id ≡ w.active_operation_id

  admit-Admitted :
      ((s : DruviaUpdateStatus) → KeepsActive id (select s))
      → (current : DruviaUpdateStatus)
      → Triple id Anything (admit version phase id allow select current) Admitted (λ _. Anything)
  unfolding admit
  admit-Admitted keeps current =
      branch (is_druvia_update_mutating_phase current.phase)
        (not allow && opt_is current.error recovery_code)
    where
      branch :
          (mutating recovering : Bool)
          → Triple id Anything
              (if mutating
                then throw (operation_in_progress current.operation_id)
                else if recovering
                then throw (precondition recovery_code)
                else do
                  selected ← select current
                  disk ← get_disk
                  put_disk (record disk {
                    status = some (started_status phase id allow selected current);
                  })
                  pure (started_status phase id allow selected current))
              Admitted
              (λ _. Anything)
      branch true b = triple_throw id _ (λ d p. tt)
      branch false true = triple_throw id _ (λ d p. tt)
      branch false false =
          triple_bind id (λ _. Anything) _ _ (keeps current)
            λ selected.
              triple_bind id (λ _. Anything) _ _ (triple_get_disk id (λ d p. tt))
                λ disk.
                  triple_bind id (λ _. Admitted (started_status phase id allow selected current)) _
                    _ (triple_put_disk id _ (λ d p. (refl, refl, refl)))
                    λ _. triple_pure id _ (λ d q. q)

  body :
      ((s : DruviaUpdateStatus) → KeepsActive id (select s))
      → Triple id Anything
          (do current ← get_status version; admit version phase id allow select current)
          Admitted
          (λ _. Anything)
  body keeps =
      triple_bind id (λ _. Anything) _ _ (triple_get_status id version (λ d p. tt))
        (admit-Admitted keeps)

  -- If the selection keeps the active operation, then: a call that is answered with a status was
  -- made while no operation was active, its operation is the active one, and the stored status is
  -- the answer, with the operation's identity and phase; a call that is refused leaves the active
  -- operation as it was.
  pub start_operation-Called :
      ((s : DruviaUpdateStatus) → KeepsActive id (select s))
      → (w : World)
      → Called w
          (start_operation version phase id allow select w).0
          (start_operation version phase id allow select w).1
  unfolding start_operation start_checked set_active ◌>>=◌ catch
  start_operation-Called keeps w = split w.active_operation_id refl
    where
      after :
          (r : Result UpdateError DruviaUpdateStatus) (w' : World)
          → w.active_operation_id ≡ none
          → (w'.active_operation_id ≡ some id) × Post Admitted (λ _. Anything) r w'.disk
          → Called w
              (recover r (λ e. do set_active none; throw e) w').0
              (recover r (λ e. do set_active none; throw e) w').1
      after (ok s) w' free q = (free, q.0, q.1)
      after (err e) w' free q = sym free

      split :
          (a : Option String)
          → w.active_operation_id ≡ a
          → Called w
              (start_checked version a phase id allow select w).0
              (start_checked version a phase id allow select w).1
      split (some other) e = refl
      split none e =
          after _ _ e ((body keeps).at (record w { active_operation_id = some id }) refl tt)
