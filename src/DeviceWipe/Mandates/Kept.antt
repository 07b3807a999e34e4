-- ===== src/DeviceWipe/Mandates/Kept.antt =====
-- project-device-wipe.service.ts: what a query and an acknowledgement keep of the signing keys and the
-- pending mandates.
use druvia.Prelude.{
  ℕ, String, str_eq, Bool, true, false, not, ◌&&◌, ◌≡◌, refl, sym, ◌∙◌, subst, Option, none, some,
  List, [], ◌∷◌, Result, ok, any, find, select, after_bind, after_required, after_guard, arith,
  Option-cases, inl, inr,
}
use druvia.Prelude.Json.{Json}
use druvia.DeviceWipe.Tables.{
  WipeError, DeviceWipeCommand, Acknowledgement, DeviceWipeBindingRow, DeviceWipeSigningKeyRow,
  DeviceWipeMandateRow, DeviceWipeMandateSource, is_pending, Store,
  assert_project_runtime_available,
}
use druvia.DeviceWipe.Crypto.{build_device_wipe_command}
use druvia.DeviceWipe.Bindings.{read_authorized_binding}
use druvia.DeviceWipe.Receipt.{DeviceWipeReceipt, normalize_device_wipe_receipt}
use druvia.DeviceWipe.Rows.{all-append, all-update_where}
use druvia.DeviceWipe.Keys.Kept.{
  SigningKeys, pending_verifiable, verifies, ok_eq, read_active_signing_key-verifies,
}
use druvia.DeviceWipe.Mandates.{
  MandateEnvelope, insert_mandate, active_key, materialize_source, materialize_sources,
  query_sources, answer_query, read_mandates, query_run, is_mandate, mandate_matches_source,
  store_acknowledgement, acknowledged_row, replay_receipt, first_receipt, acknowledge_run,
  accept_receipt, AcknowledgeResponse,
}

-- The key that the loop holds, if any, is listed for verification.
Usable : String → List DeviceWipeSigningKeyRow → Option DeviceWipeSigningKeyRow → Type 0
Usable project_id keys none = Unit
Usable project_id keys (some key) = any (verifies project_id key.key_id) keys ≡ true

insert_mandate_kept :
    (s t : Store) (row : DeviceWipeMandateRow)
    → insert_mandate s row ≡ ok t
    → any (verifies row.project_id row.key_id) s.signing_keys ≡ true
    → SigningKeys s
    → SigningKeys t × (t.signing_keys ≡ s.signing_keys)
unfolding insert_mandate pending_verifiable
insert_mandate_kept s t row h signed (one, all_verifiable) =
    after_guard (not (any (is_mandate row.project_id row.binding_id row.deletion_id) s.mandates)) _
      h
      λ new h0.
        subst (λ u. SigningKeys u × (u.signing_keys ≡ s.signing_keys)) (ok_eq h0)
          (
            (
              one,
              ground (arith, all-append (pending_verifiable s.signing_keys) s.mandates (row ∷ [])),
            ),
            refl,
          )

active_key-Usable :
    (s : Store) (project_id : String) (key : Option DeviceWipeSigningKeyRow)
    (used : DeviceWipeSigningKeyRow)
    → active_key s project_id key ≡ ok used
    → Usable project_id s.signing_keys key
    → any (verifies project_id used.key_id) s.signing_keys ≡ true
unfolding active_key Usable
active_key-Usable s project_id none used h usable =
    read_active_signing_key-verifies s project_id used h
active_key-Usable s project_id (some key) used h usable =
    subst (λ k. any (verifies project_id k.key_id) s.signing_keys ≡ true) (ok_eq h) usable

-- What is done to the keys and the mandates, beside the result.
abbrev Keeps : {A : Type 0} → Store → A × Store → Type 0
Keeps s done = SigningKeys done.1 × (done.1.signing_keys ≡ s.signing_keys)

module _ (hmac : String → String → List String → String) (sha256 : String → String)
    (private_key : String → Option String) (sign : String → DeviceWipeCommand → String → String)
    (list_hook : DeviceWipeBindingRow → Result WipeError (List DeviceWipeMandateSource))
    (sorted : List DeviceWipeMandateSource → List DeviceWipeMandateSource) where
  materialize_source_kept :
      (binding : DeviceWipeBindingRow) (source : DeviceWipeMandateSource)
      (key : DeviceWipeSigningKeyRow) (s : Store) (made : MandateEnvelope × Store)
      → materialize_source hmac sha256 private_key sign list_hook sorted binding source key s
        ≡ ok made
      → any (verifies binding.project_id key.key_id) s.signing_keys ≡ true
      → SigningKeys s
      → Keeps s made
  unfolding materialize_source
  materialize_source_kept binding source key s made h signed kept =
      after_required (private_key key.private_jwk_encrypted) _ h λ private e h0.
        after_bind
          (build_device_wipe_command source.deletion_id binding.project_id
            binding.project_user_fingerprint binding.binding_identity_hmac binding.binding_revision
            source.scope source.session_id)
          h0
          λ command e1 h1. after_bind (insert_mandate s _) h1 λ inserted e2 h2.
            subst (Keeps s) (ok_eq h2) (insert_mandate_kept s inserted _ e2 signed kept)

  materialize_sources_kept :
      (binding : DeviceWipeBindingRow) (existing : List DeviceWipeMandateRow)
      (sources : List DeviceWipeMandateSource) (key : Option DeviceWipeSigningKeyRow) (s : Store)
      (done : List MandateEnvelope × Store)
      → materialize_sources hmac sha256 private_key sign list_hook sorted binding existing sources
          key s
        ≡ ok done
      → Usable binding.project_id s.signing_keys key
      → SigningKeys s
      → Keeps s done
  unfolding materialize_sources Usable
  materialize_sources_kept binding existing [] key s done h usable kept =
      subst (Keeps s) (ok_eq h) (kept, refl)
  materialize_sources_kept binding existing (source ∷ sources) key s done h usable kept =
      elim (Option-cases (
        find (λ (row : DeviceWipeMandateRow). str_eq row.deletion_id source.deletion_id)
          existing)) [
            | inl none_yet ↦
                after_bind (active_key s binding.project_id key)
                  (rw (none_yet, materialize_sources) at h)
                  λ used e1 h1.
                    after_bind
                      (materialize_source hmac sha256 private_key sign list_hook sorted binding
                        source used s)
                      h1
                      λ made e2 h2.
                        after_bind
                          (materialize_sources hmac sha256 private_key sign list_hook sorted binding
                            existing sources (some used) made.1)
                          h2
                          λ rest e3 h3.
                            let (signing, same) =
                              materialize_source_kept binding source used s made e2
                                (active_key-Usable s binding.project_id key used e1 usable) kept in
                            let (signing_rest, same_rest) =
                              materialize_sources_kept binding existing sources (some used) made.1
                                rest e3
                                (subst
                                  (λ keys.
                                    any (verifies binding.project_id used.key_id) keys ≡ true)
                                  (sym same)
                                  (active_key-Usable s binding.project_id key used e1 usable))
                                signing in
                            subst (Keeps s) (ok_eq h3) (signing_rest, same_rest ∙ same)
            | inr (row, found) ↦
                after_guard (mandate_matches_source row source) _
                  (rw (found, materialize_sources) at h)
                  λ matches h1.
                    materialize_sources_kept binding existing sources key s done h1 usable kept
          ]

  query_sources_kept :
      (is_active : Bool) (binding : DeviceWipeBindingRow) (existing : List DeviceWipeMandateRow)
      (s : Store) (done : List MandateEnvelope × Store)
      → query_sources hmac sha256 private_key sign list_hook sorted is_active binding existing s
        ≡ ok done
      → SigningKeys s
      → SigningKeys done.1
  unfolding query_sources Usable
  query_sources_kept true binding existing s done h kept =
      after_bind (list_hook binding) h λ sources e1 h1.
        (materialize_sources_kept binding existing (sorted sources) none s done h1 tt kept).0
  query_sources_kept false binding existing s done h kept =
      subst (λ stored. SigningKeys stored.1) (ok_eq h) kept

  answer_query_kept :
      (binding : DeviceWipeBindingRow) (existing pending : List DeviceWipeMandateRow) (s : Store)
      (done : List MandateEnvelope × Store)
      → answer_query hmac sha256 private_key sign list_hook sorted binding existing pending s
        ≡ ok done
      → SigningKeys s
      → SigningKeys done.1
  unfolding answer_query
  answer_query_kept binding existing [] s done h kept =
      query_sources_kept binding.is_active binding existing s done h kept
  answer_query_kept binding existing (row ∷ rows) s done h kept =
      subst (λ stored. SigningKeys stored.1) (ok_eq h) kept

  pub query_run_kept :
      (project_id handle token : String) (s : Store) (done : List MandateEnvelope × Store)
      → query_run hmac sha256 private_key sign list_hook sorted project_id handle token s ≡ ok done
      → SigningKeys s
      → SigningKeys done.1
  unfolding query_run
  query_run_kept project_id handle token s done h kept =
      after_bind (assert_project_runtime_available s project_id) h λ available e h0.
        after_bind (read_authorized_binding hmac sha256 s project_id handle token) h0
          λ binding e1 h1.
            answer_query_kept binding (read_mandates s project_id binding.binding_id)
              (select is_pending (read_mandates s project_id binding.binding_id)) s done h1 kept

stored_kept :
    (s : Store) (project_id binding_id deletion_id : String) (done : Acknowledgement)
    → SigningKeys s
    → SigningKeys (store_acknowledgement s project_id binding_id deletion_id done).1
unfolding store_acknowledgement pending_verifiable acknowledged_row is_pending
stored_kept s project_id binding_id deletion_id done (one, all_verifiable) = (
  one,
  all-update_where (pending_verifiable s.signing_keys)
      (λ (row : DeviceWipeMandateRow).
        is_mandate project_id binding_id deletion_id row && is_pending row)
      (acknowledged_row done) s.mandates (λ row v. refl) all_verifiable,
)

module _ (hmac : String → String → List String → String) (sha256 : String → String)
    (parse_time : String → Option ℕ) (iso_string : ℕ → String) (now_ms : ℕ)
    (receipt_json : DeviceWipeReceipt → String)
    (acknowledge_hook : DeviceWipeBindingRow → String → String → Result WipeError (Unit {0}))
    (now : ℕ) where
  abbrev acknowledgement_of : String → Acknowledgement
  acknowledgement_of text = record {
    receipt_json = text;
    receipt_digest = sha256 text;
    acknowledged_at = now;
  }

  abbrev stored : String → DeviceWipeBindingRow → String → String → Store → Bool × Store
  stored project_id binding deletion_id text s =
      store_acknowledgement s project_id binding.binding_id deletion_id (acknowledgement_of text)

  accept_receipt_kept :
      (project_id : String) (binding : DeviceWipeBindingRow) (deletion_id text : String)
      (acknowledgement : Option Acknowledgement) (s : Store) (done : AcknowledgeResponse × Store)
      → accept_receipt hmac sha256 parse_time iso_string now_ms receipt_json acknowledge_hook now
          project_id binding deletion_id text acknowledgement s
        ≡ ok done
      → SigningKeys s
      → SigningKeys done.1
  unfolding accept_receipt replay_receipt first_receipt
  accept_receipt_kept project_id binding deletion_id text (some before) s done h kept =
      after_guard (str_eq before.receipt_digest (sha256 text)) _ h
        λ same h0. subst (λ stored. SigningKeys stored.1) (ok_eq h0) kept
  accept_receipt_kept project_id binding deletion_id text none s done h kept =
      after_bind (acknowledge_hook binding deletion_id text) h λ called e h0.
        after_guard (stored project_id binding deletion_id text s).0 _ h0 λ updated h1.
          subst (λ finished. SigningKeys finished.1) (ok_eq h1)
            (stored_kept s project_id binding.binding_id deletion_id (acknowledgement_of text) kept)

  pub acknowledge_run_kept :
      (project_id handle token deletion_id : String) (receipt : Json) (s : Store)
      (done : AcknowledgeResponse × Store)
      → acknowledge_run hmac sha256 parse_time iso_string now_ms receipt_json acknowledge_hook now
          project_id handle token deletion_id receipt s
        ≡ ok done
      → SigningKeys s
      → SigningKeys done.1
  unfolding acknowledge_run
  acknowledge_run_kept project_id handle token deletion_id receipt s done h kept =
      after_bind (assert_project_runtime_available s project_id) h λ available e h0.
        after_bind (read_authorized_binding hmac sha256 s project_id handle token) h0
          λ binding e1 h1.
            after_required (find (is_mandate project_id binding.binding_id deletion_id) s.mandates)
              _ h1
              λ mandate e2 h2.
                after_bind
                  (normalize_device_wipe_receipt parse_time iso_string now_ms receipt record {
                    deletion_id = mandate.deletion_id;
                    binding_identity_hmac = binding.binding_identity_hmac;
                    scope = mandate.scope;
                    session_id = mandate.session_id;
                  })
                  h2
                  λ accepted e3 h3.
                    accept_receipt_kept project_id binding deletion_id (receipt_json accepted)
                      mandate.acknowledgement s done h3 kept
