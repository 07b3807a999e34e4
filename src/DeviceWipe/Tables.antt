-- ===== src/DeviceWipe/Tables.antt =====
-- The tables of the device wipe, project-device-wipe.service.ts and project-session-state.ts: what a
-- transaction does to them, and the gate of a project.
use druvia.Prelude.{
  ℕ, String, str_eq, if◌then◌else◌, Bool, true, false, not, Option, none, some, List, [], ◌∷◌,
  Result, ok, err, guard, find, includes,
}

-- A ProjectDeviceWipeError with its status code, an error of the database with its SQLSTATE, or
-- another error.
pub data WipeError : Type 0 where
  device_wipe : String → ℕ → WipeError
  database : String → WipeError
  other : WipeError

-- deviceWipeErrorChainHasCode, on an error without a cause.
unfoldable pub error_has_code : WipeError → String → Bool
error_has_code (device_wipe code status) wanted = str_eq code wanted
error_has_code (database code) wanted = str_eq code wanted
error_has_code other wanted = false

pub record DeviceWipeHookNames : Type 0 where
  pub register_function : String
  pub query_function : String
  pub acknowledge_function : String

pub record DeviceWipeHookContracts : Type 0 where
  pub schema_name : String
  pub names : DeviceWipeHookNames
  pub register_contract_hash : String
  pub query_contract_hash : String
  pub acknowledge_contract_hash : String

pub record DeviceWipeConfigRow : Type 0 where
  pub project_id : String
  pub enabled : Bool
  pub hooks : DeviceWipeHookNames
  pub binding_secret_verification : Option String
  pub credential_secret_verification : Option String

-- A binding is active until it is retired.
pub record DeviceWipeBindingRow : Type 0 where
  pub binding_id : String
  pub project_id : String
  pub project_user_fingerprint : String
  pub project_user_id_encrypted : String
  pub binding_identity_hmac : String
  pub binding_revision : ℕ
  pub binding_handle : String
  pub lookup_token_hash : String
  pub idempotency_key : String
  pub is_active : Bool
  pub contracts : DeviceWipeHookContracts

pub data SigningKeyStatus : Type 0 where
  active verification_only retired : SigningKeyStatus

unfoldable pub is_active_key : SigningKeyStatus → Bool
is_active_key active = true
is_active_key _ = false

unfoldable pub is_retired_key : SigningKeyStatus → Bool
is_retired_key retired = true
is_retired_key _ = false

pub record DeviceWipeSigningKeyRow : Type 0 where
  pub project_id : String
  pub key_id : String
  pub public_jwk : String
  pub private_jwk_encrypted : String
  pub status : SigningKeyStatus

pub data WipeScope : Type 0 where
  account session : WipeScope

unfoldable pub scope_eq : WipeScope → WipeScope → Bool
scope_eq account account = true
scope_eq session session = true
scope_eq _ _ = false

pub data CommandScope : Type 0 where
  whole_account : CommandScope
  one_session : String → CommandScope

pub record DeviceWipeCommand : Type 0 where
  pub deletion_id : String
  pub project_id : String
  pub project_user_fingerprint : String
  pub binding_identity_hmac : String
  pub binding_revision : ℕ
  pub scope : CommandScope

-- What is stored when a receipt is accepted: its text, the digest of the text, and the time.
pub record Acknowledgement : Type 0 where
  pub receipt_json : String
  pub receipt_digest : String
  pub acknowledged_at : ℕ

-- A mandate is pending until it is acknowledged; then the three columns of the receipt are set.
pub record DeviceWipeMandateRow : Type 0 where
  pub project_id : String
  pub binding_id : String
  pub deletion_id : String
  pub scope : WipeScope
  pub session_id : Option String
  pub key_id : String
  pub command : DeviceWipeCommand
  pub signature : String
  pub acknowledgement : Option Acknowledgement

pub record DeviceWipeMandateSource : Type 0 where
  pub deletion_id : String
  pub scope : WipeScope
  pub session_id : Option String

-- `gates` has the projects with a row in druvia_project_runtime_gates. Rows stand in the order in
-- which they were inserted.
pub record Store : Type 0 where
  pub gates : List String
  pub configs : List DeviceWipeConfigRow
  pub bindings : List DeviceWipeBindingRow
  pub signing_keys : List DeviceWipeSigningKeyRow
  pub mandates : List DeviceWipeMandateRow

unfoldable pub is_pending : DeviceWipeMandateRow → Bool
is_pending row = elim row.acknowledgement [ none ↦ true | some done ↦ false ]

-- An UPDATE of the rows that a test selects.
unfoldable pub update_where {ℓ} : {A : Type ℓ} → (A → Bool) → (A → A) → List A → List A
update_where test change [] = []
update_where test change (row ∷ rows) =
    let rest = update_where test change rows in if test row then change row ∷ rest else row ∷ rest

-- assertProjectRuntimeAvailable
unfoldable pub assert_project_runtime_available : Store → String → Result WipeError (Unit {0})
assert_project_runtime_available s project_id =
    guard (not (includes s.gates project_id)) (device_wipe "PROJECT_RESTORE_IN_PROGRESS" 503)

unfoldable pub read_config : Store → String → Option DeviceWipeConfigRow
read_config s project_id = find (λ row. str_eq row.project_id project_id) s.configs

-- What the service makes of an error after the ROLLBACK.
unfoldable pub rolled_back_error : WipeError → WipeError
unfolding error_has_code
rolled_back_error thrown =
    if error_has_code thrown "57014" then device_wipe "DEVICE_WIPE_HOOK_TIMEOUT" 503 else thrown

-- COMMIT of what the calls leave, or ROLLBACK to the tables from before.
unfoldable pub finish_transaction :
    {A : Type 0} → Store → Result WipeError (A × Store) → Result WipeError A × Store
unfolding rolled_back_error
finish_transaction s (ok done) = (ok (done.0), done.1)
finish_transaction s (err thrown) = (err (rolled_back_error thrown), s)

unfoldable pub in_transaction :
    {A : Type 0} → (Store → Result WipeError (A × Store)) → Store → Result WipeError A × Store
unfolding finish_transaction
in_transaction run s = finish_transaction s (run s)
