-- ===== src/DeviceWipe/Bindings/Kept.antt =====
-- project-device-wipe.service.ts: a registration changes the bindings alone.
use druvia.Prelude.{
  ℕ, ◌==◌, ltb, String, str_eq, not, ◌&&◌, ◌≡◌, refl, subst, Option, none, some, List, Result, ok,
  err, any, find, select, after_bind, after_required, after_guard,
}
use druvia.DeviceWipe.Tables.{
  WipeError, DeviceWipeHookNames, DeviceWipeHookContracts, DeviceWipeBindingRow, Store,
  assert_project_runtime_available,
}
use druvia.DeviceWipe.Crypto.{Secrets}
use druvia.DeviceWipe.Rows.{in_transaction_kept}
use druvia.DeviceWipe.Keys.{
  enabled_config, assert_persisted_secret_verification, read_device_wipe_secrets,
}
use druvia.DeviceWipe.Keys.Kept.{ok_eq}
use druvia.DeviceWipe.Bindings.{
  RegisterInput, BindingResponse, is_of_identity, is_idempotent, clashes, has_other_user, is_stale,
  new_binding, fingerprint_for, identity_for, insert_binding, retire_bindings, binding_response,
  replay_binding, fresh_binding, register_for, register_run, register_with,
  register_project_device_wipe_binding,
}

-- The keys and the mandates are the same.
abbrev pub SameRest : Store → Store → Type 0
SameRest s t = (t.signing_keys ≡ s.signing_keys) × (t.mandates ≡ s.mandates)

insert_binding_kept :
    (s t u : Store) (row : DeviceWipeBindingRow)
    → insert_binding s row ≡ ok t
    → SameRest u s
    → SameRest u t
unfolding insert_binding
insert_binding_kept s t u row h same = after_guard (ltb 0 row.binding_revision) _ h λ positive h0.
    after_guard (not (any (clashes row) s.bindings)) _ h0
      λ new h1. subst (SameRest u) (ok_eq h1) same

module _ (hmac : String → String → List String → String) (sha256 : String → String)
    (secrets : Option Secrets)
    (inspect : String → DeviceWipeHookNames → Result WipeError DeviceWipeHookContracts)
    (encrypt : String → Option String)
    (register_hook : DeviceWipeHookContracts → String → String → ℕ → Result WipeError (Unit {0}))
    (new_id : String) where
  abbrev fingerprint : RegisterInput → Secrets → String
  fingerprint = fingerprint_for hmac sha256 secrets inspect encrypt register_hook new_id

  abbrev identity : RegisterInput → Secrets → String
  identity = identity_for hmac sha256 secrets inspect encrypt register_hook new_id

  abbrev identity_rows : RegisterInput → Secrets → Store → List DeviceWipeBindingRow
  identity_rows input known s =
      select (is_of_identity input.project_id (identity input known)) s.bindings

  fresh_kept :
      (input : RegisterInput) (hooks : DeviceWipeHookNames) (known : Secrets) (s : Store)
      (done : BindingResponse × Store)
      → fresh_binding hmac sha256 secrets inspect encrypt register_hook new_id input hooks known s
        ≡ ok done
      → SameRest s done.1
  unfolding fresh_binding retire_bindings
  fresh_kept input hooks known s done h =
      let rows = identity_rows input known s in
      let row = new_binding hmac sha256 secrets inspect encrypt register_hook new_id input known in
      let retired = retire_bindings s input.project_id (identity input known) in
      after_guard (not (has_other_user (fingerprint input known) rows)) _ h λ own h0.
        after_guard (not (is_stale input.binding_revision rows)) _ h0 λ newer h1.
          after_bind (inspect input.project_id hooks) h1 λ contracts e2 h2.
            after_required (encrypt input.project_user_id) _ h2 λ encrypted e3 h3.
              after_bind
                (register_hook contracts input.project_user_id (identity input known)
                  input.binding_revision)
                h3
                λ called e4 h4.
                  after_bind (insert_binding retired (row contracts encrypted)) h4 λ inserted e5 h5.
                    subst (λ finished. SameRest s finished.1) (ok_eq h5)
                      (insert_binding_kept retired inserted s (row contracts encrypted) e5
                        (refl, refl))

  for_kept :
      (input : RegisterInput) (hooks : DeviceWipeHookNames) (known : Secrets)
      (found : Option DeviceWipeBindingRow) (s : Store) (done : BindingResponse × Store)
      → register_for hmac sha256 secrets inspect encrypt register_hook new_id input hooks known
          found s
        ≡ ok done
      → SameRest s done.1
  unfolding register_for replay_binding
  for_kept input hooks known none s done h = fresh_kept input hooks known s done h
  for_kept input hooks known (some binding) s done h =
      after_guard
        (str_eq binding.binding_identity_hmac (identity input known)
          && binding.binding_revision == input.binding_revision)
        _ h
        λ same h0.
          after_bind (binding_response hmac sha256 secrets inspect binding known.credential_secret)
            h0 λ response e h1. subst (λ finished. SameRest s finished.1) (ok_eq h1) (refl, refl)

  register_run_kept :
      (input : RegisterInput) (known : Secrets) (s : Store) (done : BindingResponse × Store)
      → register_run hmac sha256 secrets inspect encrypt register_hook new_id input known s
        ≡ ok done
      → SameRest s done.1
  unfolding register_run
  register_run_kept input known s done h =
      after_bind (assert_project_runtime_available s input.project_id) h λ available e h0.
        after_required (enabled_config hmac sha256 secrets inspect s input.project_id) _ h0
          λ config e1 h1.
            after_bind
              (assert_persisted_secret_verification hmac sha256 secrets inspect config known) h1
              λ same e2 h2.
                for_kept input config.hooks known
                  (find
                    (is_idempotent input.project_id (fingerprint input known) input.idempotency_key)
                    s.bindings)
                  s done h2

  register_with_kept :
      (input : RegisterInput) (known : Result WipeError Secrets) (s : Store)
      → SameRest s
          (register_with hmac sha256 secrets inspect encrypt register_hook new_id input known s).1
  unfolding register_with
  register_with_kept input (err thrown) s = (refl, refl)
  register_with_kept input (ok known) s =
      in_transaction_kept (SameRest s)
        (register_run hmac sha256 secrets inspect encrypt register_hook new_id input known) s
        (λ response t e. register_run_kept input known s (response, t) e) (refl, refl)

  pub register_kept_by :
      (input : RegisterInput) (s : Store)
      → SameRest s
          (register_project_device_wipe_binding hmac sha256 secrets inspect encrypt register_hook
            new_id input s).1
  unfolding register_project_device_wipe_binding
  register_kept_by input s =
      register_with_kept input (read_device_wipe_secrets hmac sha256 secrets inspect) s
