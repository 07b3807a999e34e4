-- ===== src/DeviceWipe/Keys/Kept.antt =====
-- project-device-wipe.service.ts: a project has one active signing key at most, and the key of every
-- pending mandate is among those that are listed for verification; what keeps both.
use druvia.Prelude.{
  ℕ, ◌≤◌, String, str_eq, eq_iff, str_eq_self, Bool, true, false, not, ◌&&◌, ◌||◌, ◌≡◌, refl, subst,
  Option, some, List, [], ◌∷◌, ◌++◌, any, all, find, select, length, arith, Result, ok, after_bind,
  after_required, after_guard,
}
use druvia.DeviceWipe.Tables.{
  DeviceWipeSigningKeyRow, DeviceWipeMandateRow, SigningKeyStatus, verification_only, retired,
  is_active_key, is_retired_key, is_pending, Store, update_where, WipeError, DeviceWipeHookNames,
  DeviceWipeHookContracts, assert_project_runtime_available,
}
use druvia.DeviceWipe.Crypto.{Secrets}
use druvia.DeviceWipe.Rows.{
  in_transaction_kept, any-append, length-select-append, length-select_none, any-find, find_holds,
  all_imp, any-find, any-update_where_kept, all_imp_unless, any-update_where_apart,
  length-select-update_where,
}
use druvia.DeviceWipe.Keys.{
  is_key_of, is_active_of, has_key_id, is_verification_key, generated_row, insert_signing_key_row,
  insert_signing_key, set_key_status, demote_active_key, is_retirable, is_pending_for,
  DeviceWipeSigningKeyPair, retire_key_run, rotate_key_run, enabled_config,
  rotate_project_device_wipe_signing_key, retire_project_device_wipe_signing_key,
  read_device_wipe_secrets, read_active_signing_key, assert_persisted_secret_verification,
}

-- How many active keys a project has.
unfoldable pub active_keys : String → List DeviceWipeSigningKeyRow → ℕ
active_keys project_id keys = length (select (is_active_of project_id) keys)

abbrev pub OneActive : List DeviceWipeSigningKeyRow → Type 0
OneActive keys = (project_id : String) → active_keys project_id keys ≤ 1

-- The key is listed for verification.
unfoldable pub verifies : String → String → DeviceWipeSigningKeyRow → Bool
verifies project_id key_id key = is_verification_key project_id key && str_eq key.key_id key_id

unfoldable pub pending_verifiable : List DeviceWipeSigningKeyRow → DeviceWipeMandateRow → Bool
pending_verifiable keys row = not (is_pending row) || any (verifies row.project_id row.key_id) keys

abbrev pub Verifiable : List DeviceWipeSigningKeyRow → List DeviceWipeMandateRow → Type 0
Verifiable keys mandates = all (pending_verifiable keys) mandates ≡ true

pub ok_eq : {E A : Type 0} {a b : A} → ◌≡◌ {A = Result E A} (ok a) (ok b) → a ≡ b
ok_eq h = cc

-- Of a project one key is active at most, and the keys of its pending mandates are listed.
abbrev pub SigningKeys : Store → Type 0
SigningKeys s = OneActive s.signing_keys × Verifiable s.signing_keys s.mandates

-- What an operation on keys leaves: the mandates are the same.
abbrev pub KeysChanged : Store → Store → Type 0
KeysChanged s t = SigningKeys t × (t.mandates ≡ s.mandates)

-- Keys that verify what others verified.
Verifiable-more :
    (keys more : List DeviceWipeSigningKeyRow) (mandates : List DeviceWipeMandateRow)
    → ((project_id key_id : String)
        → any (verifies project_id key_id) keys ≡ true
        → any (verifies project_id key_id) more ≡ true)
    → Verifiable keys mandates
    → Verifiable more mandates
unfolding pending_verifiable
Verifiable-more keys more mandates imp h =
    all_imp (pending_verifiable keys) (pending_verifiable more) mandates
      (λ row v. ground (arith, imp row.project_id row.key_id)) h

-- The project of an active key.
active_project :
    (project_id : String) (row : DeviceWipeSigningKeyRow)
    → is_active_of project_id row ≡ true
    → (row.project_id ≡ project_id) × (is_active_key row.status ≡ true)
unfolding is_active_of is_key_of
active_project project_id row h =
    ((eq_iff row.project_id project_id).0 (ground arith), ground arith)

counted :
    (project_id : String) (keys : List DeviceWipeSigningKeyRow) (row : DeviceWipeSigningKeyRow)
    → (is_active_key row.status && any (is_active_of row.project_id) keys) ≡ false
    → is_active_of project_id row ≡ true
    → active_keys project_id keys ≡ 0
unfolding active_keys
counted project_id keys row free is_active =
    let (same, status) = active_project project_id row is_active in
    subst (λ p. length (select (is_active_of p) keys) ≡ 0) same
      (length-select_none (is_active_of row.project_id) keys (ground arith))

OneActive-insert :
    (keys : List DeviceWipeSigningKeyRow) (row : DeviceWipeSigningKeyRow)
    → (is_active_key row.status && any (is_active_of row.project_id) keys) ≡ false
    → OneActive keys
    → OneActive (keys ++ row ∷ [])
unfolding active_keys
OneActive-insert keys row free one project_id = ground (
  arith,
  length-select-append (is_active_of project_id) keys (row ∷ []),
  one project_id,
  counted project_id keys row free,
)

-- A key whose status is changed to another than active.
OneActive-update_where :
    (changed : DeviceWipeSigningKeyRow → Bool) (status : SigningKeyStatus)
    (keys : List DeviceWipeSigningKeyRow)
    → is_active_key status ≡ false
    → OneActive keys
    → OneActive (update_where changed (set_key_status status) keys)
unfolding active_keys is_active_of is_key_of set_key_status
OneActive-update_where changed status keys idle one project_id = omega (
  arith,
  one project_id,
  length-select-update_where (is_active_of project_id) changed (set_key_status status) keys
      (λ row h. ground arith),
)

insert_signing_key_row_kept :
    (s t : Store) (row : DeviceWipeSigningKeyRow)
    → insert_signing_key_row s row ≡ ok t
    → SigningKeys s
    → KeysChanged s t
unfolding insert_signing_key_row
insert_signing_key_row_kept s t row h (one, all_verifiable) =
    after_guard (not (any (has_key_id row.project_id row.key_id) s.signing_keys)) _ h λ new h0.
      after_guard
        (not (is_active_key row.status && any (is_active_of row.project_id) s.signing_keys)) _ h0
        λ free h1. subst (KeysChanged s) (ok_eq h1) (
          (
            OneActive-insert s.signing_keys row (ground arith) one,
            Verifiable-more s.signing_keys (s.signing_keys ++ row ∷ []) s.mandates
                (λ p k v. ground (arith, any-append (verifies p k) s.signing_keys (row ∷ [])))
                all_verifiable,
          ),
          refl,
        )

pub insert_signing_key_kept :
    (encrypt : String → Option String) (generated made : DeviceWipeSigningKeyPair) (s t : Store)
    (project_id : String)
    → insert_signing_key encrypt generated s project_id ≡ ok (made, t)
    → SigningKeys s
    → KeysChanged s t
unfolding insert_signing_key
insert_signing_key_kept encrypt generated made s t project_id h kept =
    after_required (encrypt generated.private_jwk) _ h λ encrypted e h0.
      after_bind (insert_signing_key_row s (generated_row project_id generated encrypted)) h0
        λ inserted e1 h1.
          subst (λ done. KeysChanged s done.1) (ok_eq h1)
            (insert_signing_key_row_kept s inserted (generated_row project_id generated encrypted)
              e1 kept)

demote_active_key_kept :
    (s : Store) (project_id : String) → SigningKeys s → SigningKeys (demote_active_key s project_id)
unfolding demote_active_key verifies is_active_of is_verification_key is_key_of set_key_status
demote_active_key_kept s project_id (one, all_verifiable) = (
  OneActive-update_where (is_active_of project_id) verification_only s.signing_keys refl one,
  Verifiable-more s.signing_keys _ s.mandates
      (λ p k v.
        any-update_where_kept (verifies p k) (is_active_of project_id)
          (set_key_status verification_only) s.signing_keys (λ row h. ground arith) v)
      all_verifiable,
)

-- The keys that verify for another id than the retired one.
still_verifies :
    (project_id key_id p k : String) (keys : List DeviceWipeSigningKeyRow)
    → (str_eq p project_id && str_eq k key_id) ≡ false
    → any (verifies p k) keys ≡ true
    → any
        (verifies p k)
        (update_where (is_retirable project_id key_id) (set_key_status retired) keys)
      ≡ true
unfolding verifies is_verification_key is_key_of is_retirable has_key_id
still_verifies project_id key_id p k keys differ h =
    any-update_where_apart (verifies p k) (is_retirable project_id key_id) (set_key_status retired)
      keys
      (λ row v. ground (
        arith,
        eq_iff row.project_id p,
        eq_iff row.key_id k,
        eq_iff row.project_id project_id,
        eq_iff row.key_id key_id,
        str_eq_self project_id,
        str_eq_self key_id,
      ))
      h

retire_key_kept :
    (s : Store) (project_id key_id : String)
    → is_pending_for project_id key_id s ≡ false
    → SigningKeys s
    → SigningKeys (record s {
      signing_keys =
          update_where (is_retirable project_id key_id) (set_key_status retired) s.signing_keys;
    })
unfolding pending_verifiable is_pending_for is_active_key
retire_key_kept s project_id key_id unused (one, all_verifiable) = (
  OneActive-update_where (is_retirable project_id key_id) retired s.signing_keys refl one,
  all_imp_unless (pending_verifiable s.signing_keys)
      (pending_verifiable
        (update_where (is_retirable project_id key_id) (set_key_status retired) s.signing_keys))
      (λ row. str_eq row.project_id project_id && (str_eq row.key_id key_id && is_pending row))
      s.mandates
      (λ row v apart.
        ground (arith, still_verifies project_id key_id row.project_id row.key_id s.signing_keys))
      unused all_verifiable,
)

retire_key_run_kept :
    (project_id key_id retired_id : String) (s t : Store)
    → retire_key_run project_id key_id s ≡ ok (retired_id, t)
    → SigningKeys s
    → KeysChanged s t
unfolding retire_key_run
retire_key_run_kept project_id key_id retired_id s t h kept =
    after_bind (assert_project_runtime_available s project_id) h λ available e h0.
      after_guard (any (is_retirable project_id key_id) s.signing_keys) _ h0 λ found h1.
        after_guard (not (is_pending_for project_id key_id s)) _ h1 λ unused h2.
          subst (λ done. KeysChanged s done.1) (ok_eq h2)
            (retire_key_kept s project_id key_id (ground arith) kept, refl)

rotate_key_run_kept :
    (hmac : String → String → List String → String) (sha256 : String → String)
    (secrets : Option Secrets)
    (inspect : String → DeviceWipeHookNames → Result WipeError DeviceWipeHookContracts)
    (encrypt : String → Option String) (generated made : DeviceWipeSigningKeyPair)
    (project_id : String) (s t : Store)
    → rotate_key_run hmac sha256 secrets inspect encrypt generated project_id s ≡ ok (made, t)
    → SigningKeys s
    → KeysChanged s t
unfolding rotate_key_run demote_active_key
rotate_key_run_kept hmac sha256 secrets inspect encrypt generated made project_id s t h kept =
    after_bind (assert_project_runtime_available s project_id) h λ available e h0.
      after_required (enabled_config hmac sha256 secrets inspect s project_id) _ h0 λ current e1 h1.
        after_bind (read_device_wipe_secrets hmac sha256 secrets inspect) h1 λ known e2 h2.
          after_bind
            (assert_persisted_secret_verification hmac sha256 secrets inspect current known) h2
            λ same e3 h3.
              insert_signing_key_kept encrypt generated made (demote_active_key s project_id) t
                project_id h3 (demote_active_key_kept s project_id kept)

-- An active key that was read is listed for verification.
pub read_active_signing_key-verifies :
    (s : Store) (project_id : String) (key : DeviceWipeSigningKeyRow)
    → read_active_signing_key s project_id ≡ ok key
    → any (verifies project_id key.key_id) s.signing_keys ≡ true
unfolding read_active_signing_key verifies is_verification_key is_active_of is_active_key
    is_retired_key
read_active_signing_key-verifies s project_id key h =
    let found : find (is_active_of project_id) s.signing_keys ≡ some key = ground arith in
    any-find (is_active_of project_id) (verifies project_id key.key_id) s.signing_keys key found (
      ground (
        arith,
        find_holds (is_active_of project_id) s.signing_keys key found,
        str_eq_self key.key_id,
      ))

pub retire_key_kept_by :
    (project_id key_id : String) (s : Store)
    → SigningKeys s
    → KeysChanged s (retire_project_device_wipe_signing_key project_id key_id s).1
unfolding retire_project_device_wipe_signing_key
retire_key_kept_by project_id key_id s kept =
    in_transaction_kept (KeysChanged s) (retire_key_run project_id key_id) s
      (λ id t e. retire_key_run_kept project_id key_id id s t e kept) (kept, refl)

pub rotate_key_kept_by :
    (hmac : String → String → List String → String) (sha256 : String → String)
    (secrets : Option Secrets)
    (inspect : String → DeviceWipeHookNames → Result WipeError DeviceWipeHookContracts)
    (encrypt : String → Option String) (generated : DeviceWipeSigningKeyPair) (project_id : String)
    (s : Store)
    → SigningKeys s
    → KeysChanged s
        (rotate_project_device_wipe_signing_key hmac sha256 secrets inspect encrypt generated
          project_id s).1
unfolding rotate_project_device_wipe_signing_key
rotate_key_kept_by hmac sha256 secrets inspect encrypt generated project_id s kept =
    in_transaction_kept (KeysChanged s)
      (rotate_key_run hmac sha256 secrets inspect encrypt generated project_id) s
      (λ made t e.
        rotate_key_run_kept hmac sha256 secrets inspect encrypt generated made project_id s t e
          kept)
      (kept, refl)
