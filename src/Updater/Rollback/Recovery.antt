-- ===== src/Updater/Rollback/Recovery.antt =====
-- apps/updater/src/update-service.ts: what a restart of the updater makes of the stored status.
use druvia.Prelude.{
  String, ◌≡◌, refl, ◌∙◌, ap, ◌⊎◌, inl, inr, arith, if◌then◌else◌, ◌&&◌, Bool, true, false,
  Bool-cases, Option, List, Result, ok, err,
}
use druvia.Updater.Status.{
  DruviaUpdatePhase, DruviaUpdateStatus, finalizing, is_druvia_update_mutating_phase,
}
use druvia.Updater.World.{
  M, World, Disk, EnvLine, CallResult, succeeds, missing, fails, UpdateError, pure, throw, failure,
  call?, ◌>>=◌, continue, get_disk, put_disk, get_status, write_state, stored_status, after_inspect,
  reconcile_finalizing, is_finalizing,
}
use druvia.Updater.Start.{
  recover_interrupted_operation, recover_from, needs_rollback, interrupted_status,
}
use druvia.Updater.Rollback.{
  stop_one, stop_each, stop_rollback_services, release_files_diverged, restart_updater,
}

-- The action leaves the disk and the active operation alone.
abbrev IsQuiet : {A : Type 0} → M A → Type 0
IsQuiet m =
    (w : World) → ((m w).1.disk ≡ w.disk) × ((m w).1.active_operation_id ≡ w.active_operation_id)

module _ {A B : Type 0} where
  keeps_bind : (m : M A) (f : A → M B) → IsQuiet m → ((a : A) → IsQuiet (f a)) → IsQuiet (m >>= f)
  unfolding ◌>>=◌
  keeps_bind m f km kf w = go (m w).0 (m w).1 (km w)
    where
      go :
          (r : Result UpdateError A) (w' : World)
          → (w'.disk ≡ w.disk) × (w'.active_operation_id ≡ w.active_operation_id)
          → ((continue r f w').1.disk ≡ w.disk)
            × ((continue r f w').1.active_operation_id ≡ w.active_operation_id)
      go (ok a) w' k = ((kf a w').0 ∙ k.0, (kf a w').1 ∙ k.1)
      go (err e) w' k = k

keeps_call? : IsQuiet call?
unfolding call?
keeps_call? w = (refl, refl)

keeps_stop_one : (b : Bool) → IsQuiet (stop_one b)
unfolding stop_one
keeps_stop_one b = keeps_bind call? _ keeps_call? answer
  where
    answer : (r : CallResult) → IsQuiet (elim r [ fails ↦ pure true | _ ↦ pure b ])
    answer succeeds w = (refl, refl)
    answer missing w = (refl, refl)
    answer fails w = (refl, refl)

keeps_end : (b : Bool) → IsQuiet (if b then throw failure else pure tt)
keeps_end true w = (refl, refl)
keeps_end false w = (refl, refl)

keeps_stop_each : IsQuiet stop_each
unfolding stop_each
keeps_stop_each = keeps_bind (stop_one false) _ (keeps_stop_one false) λ a.
    keeps_bind (stop_one a) _ (keeps_stop_one a)
      λ b. keeps_bind (stop_one b) _ (keeps_stop_one b) keeps_end

keeps_stop : IsQuiet stop_rollback_services
unfolding stop_rollback_services
keeps_stop =
    keeps_bind call?
      (λ r. elim r [ succeeds ↦ pure tt | missing ↦ stop_each | fails ↦ throw failure ]) keeps_call?
      answer
  where
    answer :
        (r : CallResult)
        → IsQuiet (elim r [ succeeds ↦ pure tt | missing ↦ stop_each | fails ↦ throw failure ])
    answer succeeds w = (refl, refl)
    answer missing w = keeps_stop_each w
    answer fails w = (refl, refl)

keeps_needed : (needed : Bool) → IsQuiet (if needed then stop_rollback_services else pure tt)
keeps_needed true w = keeps_stop w
keeps_needed false w = (refl, refl)

is_finalizing-eq : (p : DruviaUpdatePhase) → is_finalizing p ≡ true → p ≡ finalizing
is_finalizing-eq finalizing h = refl
is_finalizing-eq _ h = ground arith

module _ (version : String) (parse_env : List EnvLine → String → Option String)
    (valid_id : String → Bool) where
  -- The status is settled: no operation of the process that has ended is still said to run.
  abbrev pub IsSettled : Disk → Type 0
  IsSettled d =
      (is_druvia_update_mutating_phase (stored_status version d).phase ≡ false)
      ⊎ ((stored_status version d).phase ≡ finalizing)

  -- What the restart leaves: the files, and a settled status, or, if the services could not be
  -- stopped, the disk as it was.
  abbrev pub Restarted : World → Result UpdateError (Unit {0}) → World → Type 0
  Restarted w (ok u) w' = (w'.disk.files ≡ w.disk.files) × IsSettled w'.disk
  Restarted w (err e) w' = w'.disk ≡ w.disk

  keeps_needs_rollback :
      (s : DruviaUpdateStatus)
      → IsQuiet (
          needs_rollback version
            (release_files_diverged version parse_env valid_id)
            stop_rollback_services
            s)
  unfolding needs_rollback release_files_diverged get_disk ◌>>=◌
  keeps_needs_rollback s w = ground arith

  settled :
      (s : DruviaUpdateStatus) (needed : Bool) (w w' : World)
      → w'.disk ≡ w.disk
      → is_finalizing (stored_status version w.disk).phase ≡ false
      → Restarted w
          (write_state version (interrupted_status needed s) w').0
          (write_state version (interrupted_status needed s) w').1
  unfolding write_state get_status get_disk put_disk ◌>>=◌
  settled s needed w w' same h = rw same (rw h (refl, inl refl))

  after_keeping :
      {A : Type 0} (w w' : World) (m : M A) (f : A → M (Unit {0}))
      → IsQuiet m
      → w'.disk ≡ w.disk
      → ((a : A) (v : World) → v.disk ≡ w.disk → Restarted w (f a v).0 (f a v).1)
      → Restarted w ((m >>= f) w').0 ((m >>= f) w').1
  unfolding ◌>>=◌
  after_keeping {A} w w' m f keeps same next = go (m w').0 (m w').1 ((keeps w').0 ∙ same)
    where
      go :
          (r : Result UpdateError A) (v : World)
          → v.disk ≡ w.disk
          → Restarted w (continue r f v).0 (continue r f v).1
      go (ok a) v e = next a v e
      go (err e) v k = k

  resumed :
      (s : DruviaUpdateStatus) (w : World)
      → stored_status version w.disk ≡ s
      → is_finalizing s.phase ≡ false
      → Restarted w
          (recover_from version
            (release_files_diverged version parse_env valid_id)
            stop_rollback_services
            s
            w).0
          (recover_from version
            (release_files_diverged version parse_env valid_id)
            stop_rollback_services
            s
            w).1
  unfolding recover_from
  resumed s w stored h = elim (Bool-cases (is_druvia_update_mutating_phase s.phase)) [
    | inl mutating ↦
        rw (mutating, h)
          (after_keeping w w _ _ (keeps_needs_rollback s) refl λ needed v same.
            after_keeping w v _ _ (keeps_needed needed) same
              λ _ v' same'. settled s needed w v' same' (rw stored h))
    | inr still ↦ rw still (refl, inl (rw stored still))
  ]

  idle_pass :
      (s : DruviaUpdateStatus) (w : World)
      → is_finalizing s.phase ≡ true
      → recover_from version
          (release_files_diverged version parse_env valid_id)
          stop_rollback_services
          s
          w
        ≡ (ok tt, w)
  unfolding recover_from
  idle_pass s w h = rw (is_finalizing-eq s.phase h) refl

  passed :
      (s : DruviaUpdateStatus) (w v : World)
      → is_finalizing s.phase ≡ true
      → v.disk ≡ w.disk
      → stored_status version w.disk ≡ s
      → Restarted w
          (recover_from version
            (release_files_diverged version parse_env valid_id)
            stop_rollback_services
            s
            v).0
          (recover_from version
            (release_files_diverged version parse_env valid_id)
            stop_rollback_services
            s
            v).1
  passed s w v h same stored =
      rw (idle_pass s v h)
        (ap (λ d. d.files) same, inr (rw same (rw stored (is_finalizing-eq s.phase h))))

  inspected :
      (r : CallResult) (s : DruviaUpdateStatus) (w v : World)
      → is_finalizing s.phase ≡ true
      → v.disk ≡ w.disk
      → stored_status version w.disk ≡ s
      → Restarted w
          (continue
            (after_inspect r s v).0
            (recover_from version
              (release_files_diverged version parse_env valid_id)
              stop_rollback_services)
            (after_inspect r s v).1).0
          (continue
            (after_inspect r s v).0
            (recover_from version
              (release_files_diverged version parse_env valid_id)
              stop_rollback_services)
            (after_inspect r s v).1).1
  unfolding after_inspect
  inspected missing s w v h same stored = unfold recover_from in (ap (λ d. d.files) same, inl refl)
  inspected succeeds s w v h same stored = passed s w v h same stored
  inspected fails s w v h same stored = passed s w v h same stored

  looked :
      (finalizes asks : Bool) (w : World)
      → is_finalizing (stored_status version w.disk).phase ≡ finalizes
      → Restarted w
          (continue
            (if finalizes && asks
              then reconcile_finalizing (stored_status version w.disk) w
              else (ok (stored_status version w.disk), w)).0
            (recover_from version
              (release_files_diverged version parse_env valid_id)
              stop_rollback_services)
            (if finalizes && asks
              then reconcile_finalizing (stored_status version w.disk) w
              else (ok (stored_status version w.disk), w)).1).0
          (continue
            (if finalizes && asks
              then reconcile_finalizing (stored_status version w.disk) w
              else (ok (stored_status version w.disk), w)).0
            (recover_from version
              (release_files_diverged version parse_env valid_id)
              stop_rollback_services)
            (if finalizes && asks
              then reconcile_finalizing (stored_status version w.disk) w
              else (ok (stored_status version w.disk), w)).1).1
  unfolding reconcile_finalizing
  looked true true w h =
      inspected (w.results w.calls) (stored_status version w.disk) w _ h refl refl
  looked true false w h = passed (stored_status version w.disk) w w h refl refl
  looked false asks w h = resumed (stored_status version w.disk) w refl h

  -- After a restart of the updater, whatever the state was and whatever commands fail: either the
  -- release files are as they were and the status is settled, that is, its phase is finalizing or no
  -- mutating one; or the restart failed, and the disk is as it was.
  pub restart_updater-Restarted :
      (w : World)
      → Restarted w
          (restart_updater version parse_env valid_id w).0
          (restart_updater version parse_env valid_id w).1
  unfolding restart_updater recover_interrupted_operation get_status ◌>>=◌
  restart_updater-Restarted w = looked _ _ w refl
