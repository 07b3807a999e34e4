-- ===== src/DeviceWipe/Keys.antt =====
-- apps/api/src/modules/project-auth/project-device-wipe.service.ts: the configuration and the signing
-- keys of a project.
pub mod Kept
use druvia.Prelude.{
  ℕ, ◌==◌, ltb, String, str_eq, opt_is, is_some, if◌then◌else◌, Bool, true, false, not, ◌&&◌, ◌||◌,
  Option, none, some, List, [], ◌∷◌, ◌++◌, Result, ok, err, ◌>>=◌, ◌>>◌, guard, required, any, find,
  select, map, length,
}
use druvia.DeviceWipe.Tables.{
  WipeError, device_wipe, database, DeviceWipeHookNames, DeviceWipeHookContracts,
  DeviceWipeConfigRow, DeviceWipeSigningKeyRow, SigningKeyStatus, active, verification_only,
  retired, is_active_key, is_retired_key, is_pending, Store, update_where,
  assert_project_runtime_available, read_config, in_transaction, error_has_code,
}
use druvia.DeviceWipe.Crypto.{
  Secrets, derive_binding_secret_verification, derive_credential_secret_verification,
}

abbrev pub device_wipe_unavailable : WipeError
device_wipe_unavailable = device_wipe "DEVICE_WIPE_UNAVAILABLE" 503

abbrev pub not_configured : WipeError
not_configured = device_wipe "DEVICE_WIPE_NOT_CONFIGURED" 409

pub is_key_of : String → DeviceWipeSigningKeyRow → Bool
is_key_of project_id row = str_eq row.project_id project_id

-- status = 'active', of the project
unfoldable pub is_active_of : String → DeviceWipeSigningKeyRow → Bool
unfolding is_key_of is_active_key
is_active_of project_id row = is_key_of project_id row && is_active_key row.status

unfoldable pub read_active_signing_key : Store → String → Result WipeError DeviceWipeSigningKeyRow
unfolding is_active_of
read_active_signing_key s project_id =
    required (find (is_active_of project_id) s.signing_keys) device_wipe_unavailable

-- A generated pair of keys, its private key in JSON.
pub record DeviceWipeSigningKeyPair : Type 0 where
  pub key_id : String
  pub public_jwk : String
  pub private_jwk : String

has_key_id : String → String → DeviceWipeSigningKeyRow → Bool
unfolding is_key_of
has_key_id project_id key_id row = is_key_of project_id row && str_eq row.key_id key_id

-- The INSERT, under the primary key and the unique index on the active key of a project.
pub insert_signing_key_row : Store → DeviceWipeSigningKeyRow → Result WipeError Store
unfolding has_key_id is_active_of is_active_key
insert_signing_key_row s row =
    guard (not (any (has_key_id row.project_id row.key_id) s.signing_keys)) (database "23505")
    >> (guard (not (is_active_key row.status && any (is_active_of row.project_id) s.signing_keys))
          (database "23505")
        >> ok record s { signing_keys = s.signing_keys ++ row ∷ [] })

generated_row : String → DeviceWipeSigningKeyPair → String → DeviceWipeSigningKeyRow
generated_row project_id generated encrypted = record {
  project_id = project_id;
  key_id = generated.key_id;
  public_jwk = generated.public_jwk;
  private_jwk_encrypted = encrypted;
  status = active;
}

-- `encrypt` is encryptSecret, which may throw.
unfoldable pub insert_signing_key :
    (String → Option String)
    → DeviceWipeSigningKeyPair
    → Store
    → String
    → Result WipeError (DeviceWipeSigningKeyPair × Store)
unfolding insert_signing_key_row generated_row
insert_signing_key encrypt generated s project_id = do
  encrypted ← required (encrypt generated.private_jwk) device_wipe_unavailable
  inserted ← insert_signing_key_row s (generated_row project_id generated encrypted)
  ok (generated, inserted)

pub set_key_status : SigningKeyStatus → DeviceWipeSigningKeyRow → DeviceWipeSigningKeyRow
set_key_status status row = record row { status = status }

-- The UPDATE of a rotation: the active key of the project verifies only.
pub demote_active_key : Store → String → Store
unfolding is_active_of set_key_status update_where
demote_active_key s project_id = record s {
  signing_keys =
      update_where (is_active_of project_id) (set_key_status verification_only) s.signing_keys;
}

-- status = 'verification_only', of the project and with the id
pub is_retirable : String → String → DeviceWipeSigningKeyRow → Bool
unfolding has_key_id
is_retirable project_id key_id row = has_key_id project_id key_id row && verifies_only row.status
  where
    verifies_only : SigningKeyStatus → Bool
    verifies_only verification_only = true
    verifies_only _ = false

-- A pending mandate was signed with the key.
pub is_pending_for : String → String → Store → Bool
unfolding is_pending
is_pending_for project_id key_id s =
    any (λ row. str_eq row.project_id project_id && (str_eq row.key_id key_id && is_pending row))
      s.mandates

-- retireProjectDeviceWipeSigningKey, in its transaction: the trigger refuses a key of a pending
-- mandate.
pub retire_key_run : String → String → Store → Result WipeError (String × Store)
unfolding is_retirable is_pending_for set_key_status update_where assert_project_runtime_available
retire_key_run project_id key_id s =
    assert_project_runtime_available s project_id
    >> (guard (any (is_retirable project_id key_id) s.signing_keys)
          (device_wipe "DEVICE_WIPE_SIGNING_KEY_NOT_RETIRABLE" 409)
        >> (guard (not (is_pending_for project_id key_id s)) (database "55006")
            >> ok (
              key_id,
              record s {
                signing_keys =
                    update_where (is_retirable project_id key_id) (set_key_status retired)
                      s.signing_keys;
              },
            )))

-- The catch around the transaction.
key_in_use : {A : Type 0} → Result WipeError A → Result WipeError A
unfolding error_has_code
key_in_use (ok done) = ok done
key_in_use (err thrown) =
    if error_has_code thrown "55006"
    then err (device_wipe "DEVICE_WIPE_SIGNING_KEY_IN_USE" 409)
    else err thrown

pub retire_project_device_wipe_signing_key :
    String → String → Store → Result WipeError String × Store
unfolding key_in_use retire_key_run in_transaction
retire_project_device_wipe_signing_key project_id key_id s =
    let done = in_transaction (retire_key_run project_id key_id) s in (key_in_use done.0, done.1)

-- listProjectDeviceWipeVerificationKeys, in the order in which the keys were inserted.
pub is_verification_key : String → DeviceWipeSigningKeyRow → Bool
unfolding is_key_of is_retired_key
is_verification_key project_id row = is_key_of project_id row && not (is_retired_key row.status)

pub list_project_device_wipe_verification_keys : Store → String → List DeviceWipeSigningKeyRow
unfolding is_verification_key
list_project_device_wipe_verification_keys s project_id =
    select (is_verification_key project_id) s.signing_keys

-- `secrets` are those of the configuration of the server, if they are valid; `inspect` is the check
-- of the hooks of a project.
module _ (hmac : String → String → List String → String) (sha256 : String → String)
    (secrets : Option Secrets)
    (inspect : String → DeviceWipeHookNames → Result WipeError DeviceWipeHookContracts) where
  unfoldable pub read_device_wipe_secrets : Result WipeError Secrets
  read_device_wipe_secrets = required secrets device_wipe_unavailable

  unfoldable pub assert_persisted_secret_verification :
      DeviceWipeConfigRow → Secrets → Result WipeError (Unit {0})
  assert_persisted_secret_verification row known =
      guard
        (opt_is row.binding_secret_verification
            (derive_binding_secret_verification hmac sha256 known.binding_secret)
          && opt_is row.credential_secret_verification
              (derive_credential_secret_verification hmac sha256 known.credential_secret))
        (device_wipe "DEVICE_WIPE_SECRET_MISMATCH" 503)

  -- The row of a project that is enabled.
  unfoldable pub enabled_config : Store → String → Option DeviceWipeConfigRow
  unfolding read_config
  enabled_config s project_id = elim (read_config s project_id) [
    | none ↦ none
    | some row ↦ if row.enabled then some row else none
  ]

  -- The transaction of rotateProjectDeviceWipeSigningKey.
  pub rotate_key_run :
      (String → Option String)
      → DeviceWipeSigningKeyPair
      → String
      → Store
      → Result WipeError (DeviceWipeSigningKeyPair × Store)
  unfolding enabled_config read_device_wipe_secrets assert_persisted_secret_verification
      demote_active_key insert_signing_key assert_project_runtime_available
  rotate_key_run encrypt generated project_id s = do
    assert_project_runtime_available s project_id
    current ← required (enabled_config s project_id) not_configured
    known ← read_device_wipe_secrets
    assert_persisted_secret_verification current known
    insert_signing_key encrypt generated (demote_active_key s project_id) project_id

  pub rotate_project_device_wipe_signing_key :
      (String → Option String)
      → DeviceWipeSigningKeyPair
      → String
      → Store
      → Result WipeError DeviceWipeSigningKeyPair × Store
  unfolding rotate_key_run in_transaction
  rotate_project_device_wipe_signing_key encrypt generated project_id s =
      in_transaction (rotate_key_run encrypt generated project_id) s
