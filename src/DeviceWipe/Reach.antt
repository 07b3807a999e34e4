-- ===== src/DeviceWipe/Reach.antt =====
-- apps/api/src/modules/project-auth/project-device-wipe.service.ts: the states of the tables that
-- calls of the service lead to, in any order and with any answers of the functions of the project, of
-- the crypto and of the clock.
mod Examples
use druvia.Prelude.{
  ℕ, String, Bool, true, false, ◌≡◌, refl, sym, subst, Option, none, some, List, [], Result, ok,
  err, arith,
}
use druvia.Prelude.Json.{Json}
use druvia.DeviceWipe.Tables.{
  WipeError, DeviceWipeHookNames, DeviceWipeHookContracts, DeviceWipeCommand, DeviceWipeBindingRow,
  DeviceWipeMandateRow, DeviceWipeMandateSource, Store, is_pending, in_transaction,
}
use druvia.DeviceWipe.Crypto.{Secrets}
use druvia.DeviceWipe.Receipt.{DeviceWipeReceipt}
use druvia.DeviceWipe.Keys.{
  DeviceWipeSigningKeyPair, rotate_project_device_wipe_signing_key,
  retire_project_device_wipe_signing_key,
}
use druvia.DeviceWipe.Keys.Kept.{
  SigningKeys, KeysChanged, OneActive, Verifiable, active_keys, retire_key_kept_by,
  rotate_key_kept_by,
}
use druvia.DeviceWipe.Config.{update_project_device_wipe_config}
use druvia.DeviceWipe.Config.Kept.{update_config_kept_by}
use druvia.DeviceWipe.Bindings.{RegisterInput, register_project_device_wipe_binding}
use druvia.DeviceWipe.Mandates.{
  query_project_device_wipe_mandates, acknowledge_project_device_wipe_mandate,
}
use druvia.DeviceWipe.Mandates.Final.{
  Preserved, Final, Final-same, mandate_row, query_kept_by, acknowledge_kept_by,
}
use druvia.DeviceWipe.Bindings.Kept.{SameRest, register_kept_by}

-- No row in any table.
abbrev pub no_rows : Store
no_rows = record { gates = []; configs = []; bindings = []; signing_keys = []; mandates = [] }

-- One call of the service, or a gate that is set or lifted.
pub data Call (s : Store) : Store → Type 0 where
  registers :
      (hmac : String → String → List String → String) (sha256 : String → String)
      (secrets : Option Secrets)
      (inspect : String → DeviceWipeHookNames → Result WipeError DeviceWipeHookContracts)
      (encrypt : String → Option String)
      (hook : DeviceWipeHookContracts → String → String → ℕ → Result WipeError (Unit {0}))
      (new_id : String) (input : RegisterInput)
      → Call s
          (register_project_device_wipe_binding hmac sha256 secrets inspect encrypt hook new_id
            input s).1
  queries :
      (hmac : String → String → List String → String) (sha256 : String → String)
      (private_key : String → Option String) (sign : String → DeviceWipeCommand → String → String)
      (hook : DeviceWipeBindingRow → Result WipeError (List DeviceWipeMandateSource))
      (sorted : List DeviceWipeMandateSource → List DeviceWipeMandateSource)
      (project_id handle token : String)
      → Call s
          (query_project_device_wipe_mandates hmac sha256 private_key sign hook sorted project_id
            handle token s).1
  acknowledges :
      (hmac : String → String → List String → String) (sha256 : String → String)
      (parse_time : String → Option ℕ) (iso_string : ℕ → String) (now_ms : ℕ)
      (receipt_json : DeviceWipeReceipt → String)
      (hook : DeviceWipeBindingRow → String → String → Result WipeError (Unit {0})) (now : ℕ)
      (project_id handle token deletion_id : String) (receipt : Json)
      → Call s
          (acknowledge_project_device_wipe_mandate hmac sha256 parse_time iso_string now_ms
            receipt_json hook now project_id handle token deletion_id receipt s).1
  configures :
      (hmac : String → String → List String → String) (sha256 : String → String)
      (secrets : Option Secrets)
      (inspect : String → DeviceWipeHookNames → Result WipeError DeviceWipeHookContracts)
      (encrypt : String → Option String) (generated : DeviceWipeSigningKeyPair)
      (project_id : String) (enabled : Bool)
      → Call s
          (update_project_device_wipe_config hmac sha256 secrets inspect encrypt generated
            project_id enabled s).1
  rotates :
      (hmac : String → String → List String → String) (sha256 : String → String)
      (secrets : Option Secrets)
      (inspect : String → DeviceWipeHookNames → Result WipeError DeviceWipeHookContracts)
      (encrypt : String → Option String) (generated : DeviceWipeSigningKeyPair)
      (project_id : String)
      → Call s
          (rotate_project_device_wipe_signing_key hmac sha256 secrets inspect encrypt generated
            project_id s).1
  retires :
      (project_id key_id : String)
      → Call s (retire_project_device_wipe_signing_key project_id key_id s).1
  gated : (gates : List String) → Call s (record s { gates = gates })

-- Any number of calls.
pub data Calls (s : Store) : Store → Type 0 where
  stay : Calls s s
  more : {t u : Store} → Calls s t → Call t u → Calls s u

Preserved-same : (s t : Store) → SameRest s t → SigningKeys s → Preserved s t
Preserved-same s t (keys, mandates) kept = (
  subst (λ rows. OneActive rows × Verifiable rows t.mandates) (sym keys)
      (subst (λ rows. OneActive s.signing_keys × Verifiable s.signing_keys rows) (sym mandates)
        kept),
  Final-same s t mandates,
)

Preserved-keys : (s t : Store) → KeysChanged s t → Preserved s t
Preserved-keys s t (kept, mandates) = (kept, Final-same s t mandates)

Call-Preserved : (s t : Store) → Call s t → SigningKeys s → Preserved s t
Call-Preserved s _ (registers hmac sha256 secrets inspect encrypt hook new_id input) kept =
    Preserved-same s _ (register_kept_by hmac sha256 secrets inspect encrypt hook new_id input s)
      kept
Call-Preserved s _ (queries hmac sha256 private_key sign hook sorted project_id handle token) kept =
    query_kept_by hmac sha256 private_key sign hook sorted project_id handle token s kept
Call-Preserved s _
      (acknowledges hmac sha256 parse_time iso_string now_ms receipt_json hook now project_id handle
        token deletion_id receipt)
      kept =
    acknowledge_kept_by hmac sha256 parse_time iso_string now_ms receipt_json hook now project_id
      handle token deletion_id receipt s kept
Call-Preserved s _ (configures hmac sha256 secrets inspect encrypt generated project_id enabled)
      kept =
    Preserved-keys s _ (
      update_config_kept_by hmac sha256 secrets inspect encrypt generated project_id enabled s kept)
Call-Preserved s _ (rotates hmac sha256 secrets inspect encrypt generated project_id) kept =
    Preserved-keys s _
      (rotate_key_kept_by hmac sha256 secrets inspect encrypt generated project_id s kept)
Call-Preserved s _ (retires project_id key_id) kept =
    Preserved-keys s _ (retire_key_kept_by project_id key_id s kept)
Call-Preserved s _ (gated gates) kept = (kept, Final-same s (record s { gates = gates }) refl)

Calls-Preserved : (s t : Store) → Calls s t → SigningKeys s → Preserved s t
Calls-Preserved s _ stay kept = (kept, (λ row over found. found))
Calls-Preserved s u (more calls call) kept =
    let (kept_before, final_before) = Calls-Preserved s _ calls kept in
    let (kept_after, final_after) = Call-Preserved _ u call kept_before in
    (kept_after, (λ row over found. final_after row over (final_before row over found)))

no_rows-SigningKeys : SigningKeys no_rows
unfolding active_keys
no_rows-SigningKeys = ((λ project_id. omega arith), refl)

-- After any calls on empty tables, a project has one active signing key at most, and the key of each
-- pending mandate is among the keys that are listed for verification.
pub Calls-SigningKeys : (s : Store) → Calls no_rows s → SigningKeys s
Calls-SigningKeys s calls = (Calls-Preserved no_rows s calls no_rows-SigningKeys).0

-- After any calls on empty tables, a mandate that is acknowledged is, after any further calls, still
-- there with the same receipt, time and all other columns.
pub Calls-Final :
    (s t : Store)
    → Calls no_rows s
    → Calls s t
    → (row : DeviceWipeMandateRow) → is_pending row ≡ false
    → mandate_row s row ≡ some row
    → mandate_row t row ≡ some row
Calls-Final s t before after = (Calls-Preserved s t after (Calls-SigningKeys s before)).1
