-- ===== src/Updater/Status.antt =====
-- packages/shared/src/update.ts and apps/updater/src/state.ts: the status of the updater, and the
-- release manifest.
use druvia.Prelude.{ℕ, String, Bool, true, false, Option, none}

pub data DruviaUpdatePhase : Type 0 where
  idle checking available downloading ready_to_apply applying : DruviaUpdatePhase
  restarting verifying finalizing succeeded failed rolled_back : DruviaUpdatePhase

pub data ApplyStage : Type 0 where
  preparing_backup backup_ready files_switched rolling_back : ApplyStage

-- DRUVIA_MUTATING_UPDATE_PHASES
abbrev pub is_druvia_update_mutating_phase : DruviaUpdatePhase → Bool
is_druvia_update_mutating_phase checking = true
is_druvia_update_mutating_phase downloading = true
is_druvia_update_mutating_phase applying = true
is_druvia_update_mutating_phase restarting = true
is_druvia_update_mutating_phase verifying = true
is_druvia_update_mutating_phase finalizing = true
is_druvia_update_mutating_phase _ = false

pub data DruviaReleaseChannel : Type 0 where
  stable beta nightly : DruviaReleaseChannel

pub record DruviaReleaseImage : Type 0 where
  pub repository : String
  pub tag : String
  pub digest : String

pub record Migrations : Type 0 where
  pub required : Bool
  pub from : ℕ
  pub to : ℕ
  pub requires_backup : Bool
  pub reversible : Bool

pub record DruviaReleaseManifest : Type 0 where
  pub version : String
  pub channel : DruviaReleaseChannel
  pub created_at : String
  pub min_updater_version : String
  pub release_notes_url : String
  pub compose_url : String
  pub compose_sha256 : String
  pub api : DruviaReleaseImage
  pub admin : DruviaReleaseImage
  pub worker : DruviaReleaseImage
  pub updater : DruviaReleaseImage
  pub migrations : Migrations

pub record AppliedBackup : Type 0 where
  pub operation_id : String
  pub target_version : String

-- The times and the messages for the reader are left out; `error` is the error's code.
pub record DruviaUpdateStatus : Type 0 where
  pub phase : DruviaUpdatePhase
  pub current_version : String
  pub available_version : Option String
  pub release_notes_url : Option String
  pub migration : Option Migrations
  pub operation_id : Option String
  pub apply_stage : Option ApplyStage
  pub rollback_backup_operation_id : Option String
  pub last_applied_backup : Option AppliedBackup
  pub error : Option String

unfoldable pub create_default_update_status : String → DruviaUpdateStatus
create_default_update_status version = record {
  phase = idle;
  current_version = version;
  available_version = none;
  release_notes_url = none;
  migration = none;
  operation_id = none;
  apply_stage = none;
  rollback_backup_operation_id = none;
  last_applied_backup = none;
  error = none;
}
