-- ===== src/DeviceWipe/Reach/Examples.antt =====
-- A device that is registered, sent a mandate, and acknowledges it, by project-device-wipe.service.ts.
use druvia.Prelude.{
  arith, ℕ, String, true, false, ◌≡◌, refl, Option, none, some, List, [], ◌∷◌, Result, ok,
}
use druvia.Prelude.Json.{Json, object, member, end, string, number}
use druvia.DeviceWipe.Tables.{
  WipeError, DeviceWipeHookNames, DeviceWipeHookContracts, DeviceWipeCommand, DeviceWipeBindingRow,
  DeviceWipeMandateRow, DeviceWipeMandateSource, account, whole_account, Store, is_pending,
}
use druvia.DeviceWipe.Crypto.{
  Secrets, derive_binding_secret_verification, derive_credential_secret_verification,
  derive_project_user_fingerprint, derive_binding_identity_hmac, derive_binding_lookup_token,
  derive_binding_handle, verify_binding_lookup_token, build_device_wipe_command,
}
use druvia.DeviceWipe.Receipt.{DeviceWipeReceipt, normalize_device_wipe_receipt}
use druvia.DeviceWipe.Keys.{
  DeviceWipeSigningKeyPair, rotate_project_device_wipe_signing_key, read_device_wipe_secrets,
  enabled_config, assert_persisted_secret_verification, insert_signing_key, is_active_of,
  read_active_signing_key,
}
use druvia.DeviceWipe.Keys.Kept.{SigningKeys}
use druvia.DeviceWipe.Config.{update_project_device_wipe_config}
use druvia.DeviceWipe.Bindings.{
  read_authorized_binding, RegisterInput, register_project_device_wipe_binding,
}
use druvia.DeviceWipe.Mandates.{
  query_project_device_wipe_mandates, acknowledge_project_device_wipe_mandate,
}
use druvia.DeviceWipe.Mandates.Final.{mandate_row}
use druvia.DeviceWipe.Mandates.Replay.{acknowledge_again}
use druvia.DeviceWipe.Reach.{
  no_rows, registers, queries, acknowledges, configures, rotates, Calls, stay, more,
  Calls-SigningKeys, Calls-Final,
}

abbrev derived : String
derived = "AAAAAAAAAAAAAAAAAAAAAAAAAAAAAAAAAAAAAAAAAAA"

abbrev hmac : String → String → List String → String
hmac secret domain parts = derived

abbrev sha256 : String → String
sha256 text = "000102030405060708090a0b0c0d0e0f101112131415161718191a1b1c1d1e1f"

abbrev secrets : Option Secrets
secrets = some record { binding_secret = "one"; credential_secret = "two" }

abbrev inspect : String → DeviceWipeHookNames → Result WipeError DeviceWipeHookContracts
inspect project_id names = ok record {
  schema_name = "p1";
  names = names;
  register_contract_hash = "00";
  query_contract_hash = "00";
  acknowledge_contract_hash = "00";
}

abbrev first_key : DeviceWipeSigningKeyPair
first_key = record { key_id = "k1"; public_jwk = "public"; private_jwk = "private" }

abbrev next_key : DeviceWipeSigningKeyPair
next_key = record { key_id = "k2"; public_jwk = "public"; private_jwk = "private" }

abbrev kept_text : String → Option String
kept_text text = some text

abbrev called : DeviceWipeHookContracts → String → String → ℕ → Result WipeError (Unit {0})
called contracts user identity revision = ok tt

abbrev input : RegisterInput
input = record {
  project_id = "p1";
  project_user_id = "u1";
  idempotency_key = "i1";
  binding_identity = "device";
  binding_revision = 1;
}

abbrev deletion : String
deletion = "00000000-0000-4000-8000-000000000001"

abbrev signed : String → DeviceWipeCommand → String → String
signed key_id command private = "signature"

abbrev listed : DeviceWipeBindingRow → Result WipeError (List DeviceWipeMandateSource)
listed binding = ok (record { deletion_id = deletion; scope = account; session_id = none } ∷ [])

abbrev in_order : List DeviceWipeMandateSource → List DeviceWipeMandateSource
in_order sources = sources

abbrev handle : String
handle = "dwb_AAAAAAAAAAAAAAAAAAAAAAAAAAAAAAAA"

abbrev parse_time : String → Option ℕ
parse_time text = some 0

abbrev iso_string : ℕ → String
iso_string time = "1970-01-01T00:00:00.000Z"

abbrev receipt_json : DeviceWipeReceipt → String
receipt_json receipt = receipt.deletion_id

abbrev acknowledged_by : DeviceWipeBindingRow → String → String → Result WipeError (Unit {0})
acknowledged_by binding deletion_id text = ok tt

abbrev receipt : Json
receipt = object (
    member "version" (number 1) (
      member "deletionID" (object (member "rawValue" (string deletion) end)) (
        member "scope" (object (member "kind" (string "account") end)) (
          member "bindingIdentityHMAC" (string derived) (
            member "completedAt" (string "1970-01-01T00:00:00.000Z")
              (member "result" (string "erased") end))))))

abbrev enabled : Store
enabled =
    (update_project_device_wipe_config hmac sha256 secrets inspect kept_text first_key "p1" true
      no_rows).1

abbrev registered : Store
registered =
    (register_project_device_wipe_binding hmac sha256 secrets inspect kept_text called "b1" input
      enabled).1

abbrev queried : Store
queried =
    (query_project_device_wipe_mandates hmac sha256 kept_text signed listed in_order "p1" handle
      derived registered).1

abbrev acknowledged : Store
acknowledged =
    (acknowledge_project_device_wipe_mandate hmac sha256 parse_time iso_string 0 receipt_json
      acknowledged_by 7 "p1" handle derived deletion receipt queried).1

abbrev queried_calls : Calls no_rows queried
queried_calls =
    more
      (more (more stay (configures hmac sha256 secrets inspect kept_text first_key "p1" true))
        (registers hmac sha256 secrets inspect kept_text called "b1" input))
      (queries hmac sha256 kept_text signed listed in_order "p1" handle derived)

abbrev acknowledged_calls : Calls no_rows acknowledged
acknowledged_calls = more queried_calls (
    acknowledges hmac sha256 parse_time iso_string 0 receipt_json acknowledged_by 7 "p1" handle
      derived deletion receipt)

abbrev row : DeviceWipeMandateRow
row = record {
  project_id = "p1";
  binding_id = "b1";
  deletion_id = deletion;
  scope = account;
  session_id = none;
  key_id = "k1";
  command = record {
    deletion_id = deletion;
    project_id = "p1";
    project_user_fingerprint = derived;
    binding_identity_hmac = derived;
    binding_revision = 1;
    scope = whole_account;
  };
  signature = "signature";
  acknowledgement =
      some
        record { receipt_json = deletion; receipt_digest = sha256 deletion; acknowledged_at = 7 };
}

row_acknowledged : mandate_row acknowledged row ≡ some row
unfolding mandate_row update_project_device_wipe_config register_project_device_wipe_binding
    query_project_device_wipe_mandates acknowledge_project_device_wipe_mandate
    read_device_wipe_secrets enabled_config assert_persisted_secret_verification insert_signing_key
    is_active_of read_active_signing_key derive_binding_secret_verification
    derive_credential_secret_verification derive_project_user_fingerprint
    derive_binding_identity_hmac derive_binding_lookup_token derive_binding_handle
    verify_binding_lookup_token build_device_wipe_command normalize_device_wipe_receipt
    read_authorized_binding
row_acknowledged = refl

Calls-SigningKeys_example : SigningKeys queried
Calls-SigningKeys_example = Calls-SigningKeys queried queried_calls

abbrev rotated : Store
rotated =
    (rotate_project_device_wipe_signing_key hmac sha256 secrets inspect kept_text next_key "p1"
      acknowledged).1

Calls-Final_example : mandate_row rotated row ≡ some row
unfolding is_pending
Calls-Final_example =
    Calls-Final acknowledged rotated acknowledged_calls
      (more stay (rotates hmac sha256 secrets inspect kept_text next_key "p1")) row refl
      row_acknowledged

acknowledge_answered :
    acknowledge_project_device_wipe_mandate hmac sha256 parse_time iso_string 0 receipt_json
      acknowledged_by 7 "p1" handle derived deletion receipt queried
    ≡ (ok record { replay = false; acknowledged_at = 7 }, acknowledged)
unfolding update_project_device_wipe_config register_project_device_wipe_binding
    query_project_device_wipe_mandates acknowledge_project_device_wipe_mandate
    read_device_wipe_secrets enabled_config assert_persisted_secret_verification insert_signing_key
    is_active_of read_active_signing_key derive_binding_secret_verification
    derive_credential_secret_verification derive_project_user_fingerprint
    derive_binding_identity_hmac derive_binding_lookup_token derive_binding_handle
    verify_binding_lookup_token build_device_wipe_command normalize_device_wipe_receipt
    read_authorized_binding
acknowledge_answered = refl

acknowledge_again_example :
    acknowledge_project_device_wipe_mandate hmac sha256 parse_time iso_string 5000 receipt_json
      acknowledged_by 9 "p1" handle derived deletion receipt acknowledged
    ≡ (ok record { replay = true; acknowledged_at = 7 }, acknowledged)
acknowledge_again_example =
    acknowledge_again hmac sha256 parse_time iso_string 0 receipt_json acknowledged_by
      acknowledged_by 7 9 5000 "p1" handle derived deletion receipt
      record { replay = false; acknowledged_at = 7 } queried acknowledged acknowledge_answered
      (omega arith)
