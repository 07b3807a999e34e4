-- ===== src/Updater/World.antt =====
-- apps/updater/src/update-service.ts: what the service acts on, and its actions. The disk holds the
-- state file, the release files, the staged release and the backups; a command of Docker or of the
-- file system that may fail is an external call, whose result is taken from a sequence.
pub mod Triple
use druvia.Prelude.{
  ℕ, suc, ◌+◌, String, str_eq, opt_is, is_some, if◌then◌else◌, Bool, true, false, not, ◌&&◌, ◌||◌,
  Option, none, some, List, [], ◌∷◌, Result, ok, err,
}
use druvia.Updater.Status.{
  DruviaUpdatePhase, checking, applying, finalizing, succeeded, DruviaUpdateStatus,
  DruviaReleaseManifest, DruviaReleaseImage, is_druvia_update_mutating_phase,
  create_default_update_status,
}

-- A line of .env.release: an assignment `KEY=value`, or any other line.
pub data EnvLine : Type 0 where
  assign : String → String → EnvLine
  other : String → EnvLine

-- .env.release and docker-compose.release.yml
pub record ReleaseFiles : Type 0 where
  pub env : List EnvLine
  pub compose : String

pub record Disk : Type 0 where
  pub status : Option DruviaUpdateStatus
  pub files : ReleaseFiles
  pub staged_manifest : Option DruviaReleaseManifest
  pub staged_compose : Option String
  pub staged_env : Option (List EnvLine)
  pub backups : List (String × ReleaseFiles)

-- The result of an external call: `missing` is a failure for a container that does not exist.
pub data CallResult : Type 0 where
  succeeds missing fails : CallResult

pub record World : Type 0 where
  pub disk : Disk
  pub active_operation_id : Option String
  pub results : ℕ → CallResult
  pub calls : ℕ

pub data UpdateError : Type 0 where
  operation_in_progress : Option String → UpdateError
  precondition : String → UpdateError
  manifest_error : String → UpdateError
  rollback_recovery_required : UpdateError
  failure : UpdateError

-- normalizeError(error).code
abbrev pub normalize_error : UpdateError → String
normalize_error (manifest_error code) = code
normalize_error rollback_recovery_required = "UPDATE_ROLLBACK_RECOVERY_REQUIRED"
normalize_error _ = "UPDATE_OPERATION_FAILED"

abbrev pub M : Type 0 → Type 0
M A = World → Result UpdateError A × World

abbrev pub pure : {A : Type 0} → A → M A
pure a w = (ok a, w)

abbrev pub throw : {A : Type 0} → UpdateError → M A
throw e w = (err e, w)

abbrev pub continue : {A B : Type 0} → Result UpdateError A → (A → M B) → M B
continue (ok a) f w = f a w
continue (err e) f w = (err e, w)

infixl 5 ◌>>=◌ ◌>>◌
unfoldable pub ◌>>=◌ : {A B : Type 0} → M A → (A → M B) → M B
◌>>=◌ m f w = let (r, w') = m w in continue r f w'

abbrev pub ◌>>◌ : {B : Type 0} → M (Unit {0}) → M B → M B
m >> n = m >>= λ _. n

abbrev pub recover : {A : Type 0} → Result UpdateError A → (UpdateError → M A) → M A
recover (ok a) h w = (ok a, w)
recover (err e) h w = h e w

-- try { m } catch (e) { h(e) }
unfoldable pub catch : {A : Type 0} → M A → (UpdateError → M A) → M A
catch m h w = let (r, w') = m w in recover r h w'

abbrev call_result : CallResult → World → Result UpdateError (Unit {0}) × World
call_result succeeds w = (ok tt, w)
call_result _ w = (err failure, w)

-- A command whose success or failure alone matters.
unfoldable pub call : M (Unit {0})
call w = call_result (w.results w.calls) (record w { calls = w.calls + 1 })

-- A command, with its result as a value.
unfoldable pub call? : M CallResult
call? w = (ok (w.results w.calls), record w { calls = w.calls + 1 })

unfoldable pub get_disk : M Disk
get_disk w = (ok w.disk, w)

unfoldable pub put_disk : Disk → M (Unit {0})
put_disk d w = (ok tt, record w { disk = d })

-- readUpdateState: the default where the file is not there.
abbrev pub stored_status : String → Disk → DruviaUpdateStatus
stored_status version disk = elim disk.status [
  | none ↦ create_default_update_status version
  | some s ↦ s
]

-- What `reconcileFinalizing` writes once the finalizer's container is seen to be stopped or gone.
abbrev pub finished_finalizing : DruviaUpdateStatus → DruviaUpdateStatus
finished_finalizing s = record s { phase = succeeded; operation_id = none; error = none }

abbrev pub is_finalizing : DruviaUpdatePhase → Bool
is_finalizing finalizing = true
is_finalizing _ = false

-- A container that runs is `succeeds`; one that has stopped or is gone is `missing`; an inspection
-- that fails for another reason leaves the status.
unfoldable pub after_inspect : CallResult → DruviaUpdateStatus → M DruviaUpdateStatus
after_inspect missing s w = (
  ok (finished_finalizing s),
  record w { disk = record w.disk { status = some (finished_finalizing s) } },
)
after_inspect _ s w = (ok s, w)

unfoldable pub reconcile_finalizing : DruviaUpdateStatus → M DruviaUpdateStatus
unfolding after_inspect
reconcile_finalizing s w = after_inspect (w.results w.calls) s (record w { calls = w.calls + 1 })

-- The status is that of the configuration's version where no file is there.
module _ (version : String) where
  unfoldable pub get_status : M DruviaUpdateStatus
  unfolding reconcile_finalizing create_default_update_status
  get_status w =
      let s = stored_status version w.disk in
      if is_finalizing s.phase && (is_some s.operation_id && not (is_some w.active_operation_id))
      then reconcile_finalizing s w
      else (ok s, w)

  -- writeState(patch)
  unfoldable pub write_state : (DruviaUpdateStatus → DruviaUpdateStatus) → M (Unit {0})
  unfolding ◌>>=◌ get_disk put_disk
  write_state patch = do
    s ← get_status
    disk ← get_disk
    put_disk (record disk { status = some (patch s) })
