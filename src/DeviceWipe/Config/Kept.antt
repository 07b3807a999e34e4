-- ===== src/DeviceWipe/Config/Kept.antt =====
-- project-device-wipe.service.ts: what an update of the configuration keeps.
use druvia.Prelude.{
  String, Bool, true, false, not, ◌&&◌, ◌≡◌, refl, subst, Option, List, Result, ok, any, after_bind,
}
use druvia.DeviceWipe.Tables.{
  WipeError, DeviceWipeHookNames, DeviceWipeHookContracts, DeviceWipeConfigRow, Store,
  assert_project_runtime_available,
}
use druvia.DeviceWipe.Crypto.{Secrets}
use druvia.DeviceWipe.Keys.{DeviceWipeSigningKeyPair, is_active_of, insert_signing_key}
use druvia.DeviceWipe.Keys.Kept.{SigningKeys, KeysChanged, insert_signing_key_kept, ok_eq}
use druvia.DeviceWipe.Config.{
  upsert_config, config_row, ensure_signing_key, update_config_run,
  update_project_device_wipe_config,
}
use druvia.DeviceWipe.Rows.{in_transaction_kept}

upsert_config-SigningKeys :
    (row : DeviceWipeConfigRow) (s : Store) → SigningKeys s → SigningKeys (upsert_config row s)
unfolding upsert_config
upsert_config-SigningKeys row s kept = kept

module _ (hmac : String → String → List String → String) (sha256 : String → String)
    (secrets : Option Secrets)
    (inspect : String → DeviceWipeHookNames → Result WipeError DeviceWipeHookContracts)
    (encrypt : String → Option String) (generated : DeviceWipeSigningKeyPair)
    (project_id : String) where
  ensure_kept :
      (needed : Bool) (s t : Store)
      → ensure_signing_key encrypt generated project_id needed s ≡ ok (tt, t)
      → SigningKeys s
      → KeysChanged s t
  unfolding ensure_signing_key
  ensure_kept true s t h kept =
      after_bind (insert_signing_key encrypt generated s project_id) h λ done e h0.
        subst (λ stored. KeysChanged s stored.1) (ok_eq h0)
          (insert_signing_key_kept encrypt generated done.0 s done.1 project_id e kept)
  ensure_kept false s t h kept = subst (λ stored. KeysChanged s stored.1) (ok_eq h) (kept, refl)

  update_config_run_kept :
      (enabled : Bool) (s t : Store)
      → update_config_run hmac sha256 secrets inspect encrypt generated project_id enabled s
        ≡ ok (tt, t)
      → SigningKeys s
      → KeysChanged s t
  unfolding update_config_run upsert_config
  update_config_run_kept enabled s t h kept =
      after_bind (assert_project_runtime_available s project_id) h λ available e h0.
        after_bind (config_row hmac sha256 secrets inspect project_id enabled s) h0 λ row e1 h1.
          ensure_kept (enabled && not (any (is_active_of project_id) s.signing_keys))
            (upsert_config row s) t h1 (upsert_config-SigningKeys row s kept)

  pub update_config_kept_by :
      (enabled : Bool) (s : Store)
      → SigningKeys s
      → KeysChanged s
          (update_project_device_wipe_config hmac sha256 secrets inspect encrypt generated
            project_id enabled s).1
  unfolding update_project_device_wipe_config
  update_config_kept_by enabled s kept =
      in_transaction_kept (KeysChanged s)
        (update_config_run hmac sha256 secrets inspect encrypt generated project_id enabled) s
        (λ done t e. update_config_run_kept enabled s t e kept) (kept, refl)
