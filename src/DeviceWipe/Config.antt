-- ===== src/DeviceWipe/Config.antt =====
-- apps/api/src/modules/project-auth/project-device-wipe.service.ts: the configuration of a project,
-- and the check before a project is deleted.
pub mod Kept
use druvia.Prelude.{
  ℕ, String, str_eq, is_some, is_ok, if◌then◌else◌, Bool, true, false, not, ◌&&◌, ◌||◌, Option,
  none, some, List, [], ◌∷◌, ◌++◌, Result, ok, err, ◌>>=◌, ◌>>◌, guard, any, find, select, length,
}
use druvia.DeviceWipe.Tables.{
  WipeError, device_wipe, DeviceWipeHookNames, DeviceWipeHookContracts, DeviceWipeConfigRow,
  DeviceWipeBindingRow, DeviceWipeMandateRow, DeviceWipeSigningKeyRow, Store, update_where,
  assert_project_runtime_available, read_config, in_transaction,
}
use druvia.DeviceWipe.Crypto.{
  Secrets, derive_binding_secret_verification, derive_credential_secret_verification,
}
use druvia.DeviceWipe.Keys.{
  DeviceWipeSigningKeyPair, is_active_of, insert_signing_key, read_device_wipe_secrets,
  assert_persisted_secret_verification, list_project_device_wipe_verification_keys,
}

-- DEFAULT_HOOKS
default_hooks : DeviceWipeHookNames
default_hooks = record {
  register_function = "druvia_register_device_wipe_binding";
  query_function = "druvia_list_device_wipe_mandates";
  acknowledge_function = "druvia_ack_device_wipe_mandate";
}

-- configHooks, or the default ones.
pub hooks_of : Option DeviceWipeConfigRow → DeviceWipeHookNames
unfolding default_hooks
hooks_of none = default_hooks
hooks_of (some row) = row.hooks

-- A text that is neither null nor empty.
is_truthy : Option String → Bool
is_truthy none = false
is_truthy (some s) = not (str_eq s "")

has_verification : DeviceWipeConfigRow → Bool
unfolding is_truthy
has_verification row =
    is_truthy row.binding_secret_verification || is_truthy row.credential_secret_verification

coalesce : Option String → Option String → Option String
coalesce none new = new
coalesce (some old) new = some old

-- ON CONFLICT (project_id) DO UPDATE
merge_config : DeviceWipeConfigRow → DeviceWipeConfigRow → DeviceWipeConfigRow
unfolding coalesce
merge_config new old = record old {
  enabled = new.enabled;
  binding_secret_verification =
      coalesce old.binding_secret_verification new.binding_secret_verification;
  credential_secret_verification =
      coalesce old.credential_secret_verification new.credential_secret_verification;
}

pub upsert_config : DeviceWipeConfigRow → Store → Store
unfolding merge_config read_config update_where
upsert_config new s = record s {
  configs =
      if is_some (read_config s new.project_id)
      then update_where (λ row. str_eq row.project_id new.project_id) (merge_config new) s.configs
      else s.configs ++ new ∷ [];
}

-- SELECT EXISTS over the bindings and the mandates of the project.
pub assert_project_device_wipe_project_deletion_allowed :
    Store → String → Result WipeError (Unit {0})
assert_project_device_wipe_project_deletion_allowed s project_id =
    guard
      (not (
        any (λ (row : DeviceWipeBindingRow). str_eq row.project_id project_id) s.bindings
        || any (λ (row : DeviceWipeMandateRow). str_eq row.project_id project_id) s.mandates))
      (device_wipe "DEVICE_WIPE_DECOMMISSION_REQUIRED" 409)

pub record DeviceWipeConfigView : Type 0 where
  pub enabled : Bool
  pub hooks_ready : Bool
  pub active_key_id : Option String
  pub verification_key_count : ℕ

-- A signing key is inserted if one is needed.
pub ensure_signing_key :
    (String → Option String)
    → DeviceWipeSigningKeyPair
    → String
    → Bool
    → Store
    → Result WipeError (Unit {0} × Store)
ensure_signing_key encrypt generated project_id true s = do
  inserted ← insert_signing_key encrypt generated s project_id
  ok (tt, inserted.1)
ensure_signing_key encrypt generated project_id false s = ok (tt, s)

module _ (hmac : String → String → List String → String) (sha256 : String → String)
    (secrets : Option Secrets)
    (inspect : String → DeviceWipeHookNames → Result WipeError DeviceWipeHookContracts) where
  -- The verification values of the secrets.
  secret_verification : Secrets → String × String
  secret_verification known = (
    derive_binding_secret_verification hmac sha256 known.binding_secret,
    derive_credential_secret_verification hmac sha256 known.credential_secret,
  )

  checked_verification : Option DeviceWipeConfigRow → Secrets → Result WipeError (String × String)
  unfolding has_verification secret_verification
  checked_verification none known = ok (secret_verification known)
  checked_verification (some row) known =
      if has_verification row
      then assert_persisted_secret_verification hmac sha256 secrets inspect row known
        >> ok (secret_verification known)
      else ok (secret_verification known)

  -- The row that an update writes, if the project may be enabled.
  pub config_row : String → Bool → Store → Result WipeError DeviceWipeConfigRow
  unfolding checked_verification hooks_of read_config
  config_row project_id false s = ok record {
    project_id = project_id;
    enabled = false;
    hooks = hooks_of (read_config s project_id);
    binding_secret_verification = none;
    credential_secret_verification = none;
  }
  config_row project_id true s = do
    known ← read_device_wipe_secrets hmac sha256 secrets inspect
    verification ← checked_verification (read_config s project_id) known
    contracts ← inspect project_id (hooks_of (read_config s project_id))
    ok record {
      project_id = project_id;
      enabled = true;
      hooks = hooks_of (read_config s project_id);
      binding_secret_verification = some verification.0;
      credential_secret_verification = some verification.1;
    }

  pub update_config_run :
      (String → Option String)
      → DeviceWipeSigningKeyPair
      → String
      → Bool
      → Store
      → Result WipeError (Unit {0} × Store)
  unfolding config_row upsert_config ensure_signing_key assert_project_runtime_available
  update_config_run encrypt generated project_id enabled s = do
    assert_project_runtime_available s project_id
    row ← config_row project_id enabled s
    ensure_signing_key encrypt generated project_id
        (enabled && not (any (is_active_of project_id) s.signing_keys)) (upsert_config row s)

  -- The active key is the only one that the unique index allows.
  pub get_project_device_wipe_config : Store → String → DeviceWipeConfigView
  unfolding hooks_of read_config
  get_project_device_wipe_config s project_id = record {
    enabled = elim (read_config s project_id) [ none ↦ false | some row ↦ row.enabled ];
    hooks_ready = is_ok (inspect project_id (hooks_of (read_config s project_id)));
    active_key_id = elim (find (is_active_of project_id) s.signing_keys) [
      | none ↦ none
      | some row ↦ some row.key_id
    ];
    verification_key_count = length (list_project_device_wipe_verification_keys s project_id);
  }

  unfoldable pub update_project_device_wipe_config :
      (String → Option String)
      → DeviceWipeSigningKeyPair
      → String
      → Bool
      → Store
      → Result WipeError DeviceWipeConfigView × Store
  unfolding update_config_run get_project_device_wipe_config in_transaction
  update_project_device_wipe_config encrypt generated project_id enabled s =
      let done = in_transaction (update_config_run encrypt generated project_id enabled) s in
      ((done.0 >>= λ updated. ok (get_project_device_wipe_config done.1 project_id)), done.1)
