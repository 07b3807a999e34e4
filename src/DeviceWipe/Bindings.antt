-- ===== src/DeviceWipe/Bindings.antt =====
-- apps/api/src/modules/project-auth/project-device-wipe.service.ts: the registration of a device and
-- the credential that it gets.
pub mod Kept
use druvia.Prelude.{
  ℕ, ◌==◌, leb, ltb, String, str_eq, if◌then◌else◌, Bool, true, false, not, ◌&&◌, ◌||◌, Option,
  none, some, List, [], ◌∷◌, ◌++◌, Result, ok, err, ◌>>=◌, ◌>>◌, guard, required, any, find, select,
}
use druvia.DeviceWipe.Tables.{
  WipeError, device_wipe, database, DeviceWipeHookNames, DeviceWipeHookContracts,
  DeviceWipeBindingRow, Store, update_where, assert_project_runtime_available, in_transaction,
}
use druvia.DeviceWipe.Crypto.{
  Secrets, derive_project_user_fingerprint, derive_binding_identity_hmac,
  derive_binding_lookup_token, derive_binding_handle, verify_binding_lookup_token,
}
use druvia.DeviceWipe.Keys.{
  device_wipe_unavailable, not_configured, read_device_wipe_secrets, enabled_config,
  assert_persisted_secret_verification,
}

pub record RegisterInput : Type 0 where
  pub project_id : String
  pub project_user_id : String
  pub idempotency_key : String
  pub binding_identity : String
  pub binding_revision : ℕ

pub record BindingResponse : Type 0 where
  pub binding_handle : String
  pub binding_lookup_token : String
  pub project_user_fingerprint : String
  pub binding_identity_hmac : String
  pub binding_revision : ℕ

-- The rows of an identity in a project.
pub is_of_identity : String → String → DeviceWipeBindingRow → Bool
is_of_identity project_id identity row =
    str_eq row.project_id project_id && str_eq row.binding_identity_hmac identity

is_idempotent : String → String → String → DeviceWipeBindingRow → Bool
is_idempotent project_id fingerprint key row =
    str_eq row.project_id project_id
    && (str_eq row.project_user_fingerprint fingerprint && str_eq row.idempotency_key key)

-- A row that a unique constraint of the table forbids beside the new one.
clashes : DeviceWipeBindingRow → DeviceWipeBindingRow → Bool
unfolding is_idempotent is_of_identity
clashes new row =
    str_eq row.binding_id new.binding_id
    || ((str_eq row.project_id new.project_id && str_eq row.binding_handle new.binding_handle)
        || (is_idempotent new.project_id new.project_user_fingerprint new.idempotency_key row
            || (is_of_identity new.project_id new.binding_identity_hmac row
                && row.binding_revision == new.binding_revision)))

-- The INSERT, under the unique constraints and the check of the revision.
pub insert_binding : Store → DeviceWipeBindingRow → Result WipeError Store
unfolding clashes
insert_binding s new =
    guard (ltb 0 new.binding_revision) (database "23514")
    >> (guard (not (any (clashes new) s.bindings)) (database "23505")
        >> ok record s { bindings = s.bindings ++ new ∷ [] })

deactivate : DeviceWipeBindingRow → DeviceWipeBindingRow
deactivate row = record row { is_active = false }

-- The UPDATE that retires the active binding of an identity.
pub retire_bindings : Store → String → String → Store
unfolding is_of_identity deactivate update_where
retire_bindings s project_id identity = record s {
  bindings =
      update_where (λ row. is_of_identity project_id identity row && row.is_active) deactivate
        s.bindings;
}

-- identityRows.rows.some((row) => row.project_user_fingerprint !== projectUserFingerprint)
pub has_other_user : String → List DeviceWipeBindingRow → Bool
has_other_user fingerprint rows =
    any (λ (row : DeviceWipeBindingRow). not (str_eq row.project_user_fingerprint fingerprint)) rows

-- identityRows.rows.some((row) => Number(row.binding_revision) >= input.bindingRevision)
pub is_stale : ℕ → List DeviceWipeBindingRow → Bool
is_stale revision rows =
    any (λ (row : DeviceWipeBindingRow). leb revision row.binding_revision) rows

-- `inspect` and `register_hook` are the check and the call of the project's functions, `encrypt` is
-- encryptSecret, and `new_id` the random id of the binding.
module _ (hmac : String → String → List String → String) (sha256 : String → String)
    (secrets : Option Secrets)
    (inspect : String → DeviceWipeHookNames → Result WipeError DeviceWipeHookContracts) where
  -- bindingResponse
  pub binding_response : DeviceWipeBindingRow → String → Result WipeError BindingResponse
  binding_response binding secret =
      let token =
        derive_binding_lookup_token hmac sha256 secret binding.project_id binding.binding_id in
      guard
        (str_eq binding.binding_handle
            (derive_binding_handle hmac sha256 secret binding.project_id binding.binding_id)
          && verify_binding_lookup_token hmac sha256 token binding.lookup_token_hash)
        device_wipe_unavailable
      >> ok record {
        binding_handle = binding.binding_handle;
        binding_lookup_token = token;
        project_user_fingerprint = binding.project_user_fingerprint;
        binding_identity_hmac = binding.binding_identity_hmac;
        binding_revision = binding.binding_revision;
      }

  -- The key was used: the request must be the same.
  replay_binding :
      DeviceWipeBindingRow
      → String
      → ℕ
      → String
      → Store
      → Result WipeError (BindingResponse × Store)
  unfolding binding_response
  replay_binding binding identity revision secret s =
      guard (str_eq binding.binding_identity_hmac identity && binding.binding_revision == revision)
        (device_wipe "DEVICE_WIPE_IDEMPOTENCY_CONFLICT" 409)
      >> (binding_response binding secret >>= λ response. ok (response, s))

  module _ (encrypt : String → Option String)
      (register_hook : DeviceWipeHookContracts → String → String → ℕ → Result WipeError (Unit {0}))
      (new_id : String) where
    abbrev pub fingerprint_for : RegisterInput → Secrets → String
    fingerprint_for input known =
        derive_project_user_fingerprint hmac sha256 known.binding_secret input.project_id
          input.project_user_id

    abbrev pub identity_for : RegisterInput → Secrets → String
    identity_for input known =
        derive_binding_identity_hmac hmac sha256 known.binding_secret input.project_id
          input.binding_identity

    -- The row of the INSERT.
    pub new_binding :
        RegisterInput → Secrets → DeviceWipeHookContracts → String → DeviceWipeBindingRow
    new_binding input known contracts encrypted = record {
      binding_id = new_id;
      project_id = input.project_id;
      project_user_fingerprint = fingerprint_for input known;
      project_user_id_encrypted = encrypted;
      binding_identity_hmac = identity_for input known;
      binding_revision = input.binding_revision;
      binding_handle =
          derive_binding_handle hmac sha256 known.credential_secret input.project_id new_id;
      lookup_token_hash =
          sha256 (
            derive_binding_lookup_token hmac sha256 known.credential_secret input.project_id
              new_id);
      idempotency_key = input.idempotency_key;
      is_active = true;
      contracts = contracts;
    }

    pub new_response : RegisterInput → Secrets → BindingResponse
    new_response input known = record {
      binding_handle =
          derive_binding_handle hmac sha256 known.credential_secret input.project_id new_id;
      binding_lookup_token =
          derive_binding_lookup_token hmac sha256 known.credential_secret input.project_id new_id;
      project_user_fingerprint = fingerprint_for input known;
      binding_identity_hmac = identity_for input known;
      binding_revision = input.binding_revision;
    }

    -- A registration whose key is new.
    pub fresh_binding :
        RegisterInput
        → DeviceWipeHookNames
        → Secrets
        → Store
        → Result WipeError (BindingResponse × Store)
    unfolding is_of_identity has_other_user is_stale new_binding new_response retire_bindings
        insert_binding
    fresh_binding input hooks known s =
        let rows = select (is_of_identity input.project_id (identity_for input known)) s.bindings in
        do
          guard (not (has_other_user (fingerprint_for input known) rows))
              (device_wipe "DEVICE_WIPE_BINDING_CONFLICT" 409)
          guard (not (is_stale input.binding_revision rows))
              (device_wipe "DEVICE_WIPE_BINDING_REVISION_STALE" 409)
          contracts ← inspect input.project_id hooks
          encrypted ← required (encrypt input.project_user_id) device_wipe_unavailable
          register_hook contracts input.project_user_id (identity_for input known)
              input.binding_revision
          inserted ←
              insert_binding (retire_bindings s input.project_id (identity_for input known))
                (new_binding input known contracts encrypted)
          ok (new_response input known, inserted)

    -- By the row that has the key of the request, if any.
    register_for :
        RegisterInput
        → DeviceWipeHookNames
        → Secrets
        → Option DeviceWipeBindingRow
        → Store
        → Result WipeError (BindingResponse × Store)
    unfolding replay_binding fresh_binding
    register_for input hooks known none s = fresh_binding input hooks known s
    register_for input hooks known (some binding) s =
        replay_binding binding
          (derive_binding_identity_hmac hmac sha256 known.binding_secret input.project_id
            input.binding_identity)
          input.binding_revision known.credential_secret s

    pub register_run : RegisterInput → Secrets → Store → Result WipeError (BindingResponse × Store)
    unfolding is_idempotent register_for assert_project_runtime_available
    register_run input known s = do
      assert_project_runtime_available s input.project_id
      config ←
          required (enabled_config hmac sha256 secrets inspect s input.project_id) not_configured
      assert_persisted_secret_verification hmac sha256 secrets inspect config known
      register_for input config.hooks known
          (find
            (is_idempotent input.project_id
              (derive_project_user_fingerprint hmac sha256 known.binding_secret input.project_id
                input.project_user_id)
              input.idempotency_key)
            s.bindings)
          s

    -- The secrets are read before the transaction.
    register_with :
        RegisterInput → Result WipeError Secrets → Store → Result WipeError BindingResponse × Store
    unfolding register_run in_transaction
    register_with input (err thrown) s = (err thrown, s)
    register_with input (ok known) s = in_transaction (register_run input known) s

    unfoldable pub register_project_device_wipe_binding :
        RegisterInput → Store → Result WipeError BindingResponse × Store
    unfolding register_with
    register_project_device_wipe_binding input s =
        register_with input (read_device_wipe_secrets hmac sha256 secrets inspect) s

-- readAuthorizedBinding
unfoldable pub read_authorized_binding :
    (String → String → List String → String)
    → (String → String)
    → Store
    → String
    → String
    → String
    → Result WipeError DeviceWipeBindingRow
read_authorized_binding hmac sha256 s project_id handle token = do
  binding ←
      required
        (find
          (λ (row : DeviceWipeBindingRow).
            str_eq row.project_id project_id && str_eq row.binding_handle handle)
          s.bindings)
        (device_wipe "DEVICE_WIPE_CREDENTIAL_INVALID" 401)
  guard (verify_binding_lookup_token hmac sha256 token binding.lookup_token_hash)
      (device_wipe "DEVICE_WIPE_CREDENTIAL_INVALID" 401)
  ok binding
