-- ===== src/DeviceWipe/Mandates/Final.antt =====
-- project-device-wipe.service.ts: a mandate that is acknowledged stays as it is.
use druvia.Prelude.{
  ℕ, String, str_eq, Bool, true, false, not, ◌&&◌, ◌≡◌, refl, sym, subst, Option, none, some, List,
  [], ◌∷◌, Result, ok, any, find, select, after_bind, after_required, after_guard, arith,
  Option-cases, inl, inr,
}
use druvia.Prelude.Json.{Json}
use druvia.DeviceWipe.Tables.{
  WipeError, DeviceWipeCommand, Acknowledgement, DeviceWipeBindingRow, DeviceWipeSigningKeyRow,
  DeviceWipeMandateRow, DeviceWipeMandateSource, is_pending, Store,
  assert_project_runtime_available,
}
use druvia.DeviceWipe.Crypto.{build_device_wipe_command}
use druvia.DeviceWipe.Receipt.{DeviceWipeReceipt, normalize_device_wipe_receipt}
use druvia.DeviceWipe.Rows.{in_transaction_kept, find-append, find-update_where_apart}
use druvia.DeviceWipe.Keys.Kept.{SigningKeys, ok_eq}
use druvia.DeviceWipe.Mandates.Kept.{query_run_kept, acknowledge_run_kept}
use druvia.DeviceWipe.Bindings.{read_authorized_binding}
use druvia.DeviceWipe.Mandates.{
  MandateEnvelope, AcknowledgeResponse, insert_mandate, active_key, materialize_source,
  materialize_sources, query_sources, answer_query, read_mandates, query_run, is_mandate,
  is_mandate_of, mandate_matches_source, store_acknowledgement, acknowledged_row, replay_receipt,
  first_receipt, accept_receipt, acknowledge_run, query_project_device_wipe_mandates,
  acknowledge_project_device_wipe_mandate,
}

-- The row of the mandate, by its key.
unfoldable pub mandate_row : Store → DeviceWipeMandateRow → Option DeviceWipeMandateRow
mandate_row s row = find (is_mandate row.project_id row.binding_id row.deletion_id) s.mandates

-- Each acknowledged mandate of the one is in the other, unchanged.
abbrev pub Final : Store → Store → Type 0
Final s t =
    (row : DeviceWipeMandateRow)
    → is_pending row ≡ false
    → mandate_row s row ≡ some row
    → mandate_row t row ≡ some row

-- The signing keys stay sound, and the acknowledged mandates stay.
abbrev pub Preserved : Store → Store → Type 0
Preserved s t = SigningKeys t × Final s t

pub Final-same : (s t : Store) → t.mandates ≡ s.mandates → Final s t
unfolding mandate_row
Final-same s t same row done found =
    subst (λ rows. find (is_mandate row.project_id row.binding_id row.deletion_id) rows ≡ some row)
      (sym same) found

insert_mandate-Final :
    (s t : Store) (new : DeviceWipeMandateRow) → insert_mandate s new ≡ ok t → Final s t
unfolding insert_mandate mandate_row
insert_mandate-Final s t new h row done found =
    after_guard (not (any (is_mandate new.project_id new.binding_id new.deletion_id) s.mandates)) _
      h
      λ is_new h0.
        subst (λ u. mandate_row u row ≡ some row) (ok_eq h0)
          (find-append (is_mandate row.project_id row.binding_id row.deletion_id) s.mandates
            (new ∷ []) row found)

pub store_acknowledgement-Final :
    (s : Store) (project_id binding_id deletion_id : String) (done : Acknowledgement)
    → Final s (store_acknowledgement s project_id binding_id deletion_id done).1
unfolding store_acknowledgement mandate_row is_mandate is_mandate_of acknowledged_row
store_acknowledgement-Final s project_id binding_id deletion_id done row finished found =
    find-update_where_apart (is_mandate row.project_id row.binding_id row.deletion_id)
      (λ (other : DeviceWipeMandateRow).
        is_mandate project_id binding_id deletion_id other && is_pending other)
      (acknowledged_row done) s.mandates row (λ other changed. refl) (ground arith) found

module _ (hmac : String → String → List String → String) (sha256 : String → String)
    (private_key : String → Option String) (sign : String → DeviceWipeCommand → String → String)
    (list_hook : DeviceWipeBindingRow → Result WipeError (List DeviceWipeMandateSource))
    (sorted : List DeviceWipeMandateSource → List DeviceWipeMandateSource) where
  materialize_source-Final :
      (binding : DeviceWipeBindingRow) (source : DeviceWipeMandateSource)
      (key : DeviceWipeSigningKeyRow) (s : Store) (made : MandateEnvelope × Store)
      → materialize_source hmac sha256 private_key sign list_hook sorted binding source key s
        ≡ ok made
      → Final s made.1
  unfolding materialize_source
  materialize_source-Final binding source key s made h =
      after_required (private_key key.private_jwk_encrypted) _ h λ private e h0.
        after_bind
          (build_device_wipe_command source.deletion_id binding.project_id
            binding.project_user_fingerprint binding.binding_identity_hmac binding.binding_revision
            source.scope source.session_id)
          h0
          λ command e1 h1. after_bind (insert_mandate s _) h1 λ inserted e2 h2.
            subst (λ done. Final s done.1) (ok_eq h2) (insert_mandate-Final s inserted _ e2)

  materialize_sources-Final :
      (binding : DeviceWipeBindingRow) (existing : List DeviceWipeMandateRow)
      (sources : List DeviceWipeMandateSource) (key : Option DeviceWipeSigningKeyRow) (s : Store)
      (done : List MandateEnvelope × Store)
      → materialize_sources hmac sha256 private_key sign list_hook sorted binding existing sources
          key s
        ≡ ok done
      → Final s done.1
  unfolding materialize_sources
  materialize_sources-Final binding existing [] key s done h =
      subst (λ finished. Final s finished.1) (ok_eq h) (λ row over found. found)
  materialize_sources-Final binding existing (source ∷ sources) key s done h =
      elim (Option-cases (
        find (λ (row : DeviceWipeMandateRow). str_eq row.deletion_id source.deletion_id)
          existing)) [
            | inl none_yet ↦
                after_bind (active_key s binding.project_id key)
                  (rw (none_yet, materialize_sources) at h)
                  λ used e1 h1.
                    after_bind
                      (materialize_source hmac sha256 private_key sign list_hook sorted binding
                        source used s)
                      h1
                      λ made e2 h2.
                        after_bind
                          (materialize_sources hmac sha256 private_key sign list_hook sorted binding
                            existing sources (some used) made.1)
                          h2
                          λ rest e3 h3.
                            subst (λ finished. Final s finished.1) (ok_eq h3)
                              (λ row over found.
                                materialize_sources-Final binding existing sources (some used)
                                  made.1 rest e3 row over
                                  (materialize_source-Final binding source used s made e2 row over
                                    found))
            | inr (row, found) ↦
                after_guard (mandate_matches_source row source) _
                  (rw (found, materialize_sources) at h)
                  λ matches h1. materialize_sources-Final binding existing sources key s done h1
          ]

  query_sources-Final :
      (is_active : Bool) (binding : DeviceWipeBindingRow) (existing : List DeviceWipeMandateRow)
      (s : Store) (done : List MandateEnvelope × Store)
      → query_sources hmac sha256 private_key sign list_hook sorted is_active binding existing s
        ≡ ok done
      → Final s done.1
  unfolding query_sources
  query_sources-Final true binding existing s done h =
      after_bind (list_hook binding) h
        λ sources e1 h1. materialize_sources-Final binding existing (sorted sources) none s done h1
  query_sources-Final false binding existing s done h =
      subst (λ finished. Final s finished.1) (ok_eq h) (λ row over found. found)

  answer_query-Final :
      (binding : DeviceWipeBindingRow) (existing pending : List DeviceWipeMandateRow) (s : Store)
      (done : List MandateEnvelope × Store)
      → answer_query hmac sha256 private_key sign list_hook sorted binding existing pending s
        ≡ ok done
      → Final s done.1
  unfolding answer_query
  answer_query-Final binding existing [] s done h =
      query_sources-Final binding.is_active binding existing s done h
  answer_query-Final binding existing (row ∷ rows) s done h =
      subst (λ finished. Final s finished.1) (ok_eq h) (λ row over found. found)

  pub query_run-Final :
      (project_id handle token : String) (s : Store) (done : List MandateEnvelope × Store)
      → query_run hmac sha256 private_key sign list_hook sorted project_id handle token s ≡ ok done
      → Final s done.1
  unfolding query_run
  query_run-Final project_id handle token s done h =
      after_bind (assert_project_runtime_available s project_id) h λ available e h0.
        after_bind (read_authorized_binding hmac sha256 s project_id handle token) h0
          λ binding e1 h1.
            answer_query-Final binding (read_mandates s project_id binding.binding_id)
              (select is_pending (read_mandates s project_id binding.binding_id)) s done h1

  -- A query keeps the signing keys sound and the acknowledged mandates.
  pub query_kept_by :
      (project_id handle token : String) (s : Store)
      → SigningKeys s
      → Preserved s
          (query_project_device_wipe_mandates hmac sha256 private_key sign list_hook sorted
            project_id handle token s).1
  unfolding query_project_device_wipe_mandates
  query_kept_by project_id handle token s kept =
      in_transaction_kept (Preserved s)
        (query_run hmac sha256 private_key sign list_hook sorted project_id handle token) s
        (λ envelopes t e. (
          query_run_kept hmac sha256 private_key sign list_hook sorted project_id handle token s
              (envelopes, t) e kept,
          query_run-Final project_id handle token s (envelopes, t) e,
        ))
        (kept, (λ row over found. found))

module _ (hmac : String → String → List String → String) (sha256 : String → String)
    (parse_time : String → Option ℕ) (iso_string : ℕ → String) (now_ms : ℕ)
    (receipt_json : DeviceWipeReceipt → String)
    (acknowledge_hook : DeviceWipeBindingRow → String → String → Result WipeError (Unit {0}))
    (now : ℕ) where
  abbrev acknowledgement_of : String → Acknowledgement
  acknowledgement_of text = record {
    receipt_json = text;
    receipt_digest = sha256 text;
    acknowledged_at = now;
  }

  abbrev stored : String → DeviceWipeBindingRow → String → String → Store → Bool × Store
  stored project_id binding deletion_id text s =
      store_acknowledgement s project_id binding.binding_id deletion_id (acknowledgement_of text)

  accept_receipt-Final :
      (project_id : String) (binding : DeviceWipeBindingRow) (deletion_id text : String)
      (acknowledgement : Option Acknowledgement) (s : Store) (done : AcknowledgeResponse × Store)
      → accept_receipt hmac sha256 parse_time iso_string now_ms receipt_json acknowledge_hook now
          project_id binding deletion_id text acknowledgement s
        ≡ ok done
      → Final s done.1
  unfolding accept_receipt replay_receipt first_receipt
  accept_receipt-Final project_id binding deletion_id text (some before) s done h =
      after_guard (str_eq before.receipt_digest (sha256 text)) _ h
        λ same h0. subst (λ finished. Final s finished.1) (ok_eq h0) (λ row over found. found)
  accept_receipt-Final project_id binding deletion_id text none s done h =
      after_bind (acknowledge_hook binding deletion_id text) h λ called e h0.
        after_guard (stored project_id binding deletion_id text s).0 _ h0 λ updated h1.
          subst (λ finished. Final s finished.1) (ok_eq h1)
            (store_acknowledgement-Final s project_id binding.binding_id deletion_id
              (acknowledgement_of text))

  pub acknowledge_run-Final :
      (project_id handle token deletion_id : String) (receipt : Json) (s : Store)
      (done : AcknowledgeResponse × Store)
      → acknowledge_run hmac sha256 parse_time iso_string now_ms receipt_json acknowledge_hook now
          project_id handle token deletion_id receipt s
        ≡ ok done
      → Final s done.1
  unfolding acknowledge_run
  acknowledge_run-Final project_id handle token deletion_id receipt s done h =
      after_bind (assert_project_runtime_available s project_id) h λ available e h0.
        after_bind (read_authorized_binding hmac sha256 s project_id handle token) h0
          λ binding e1 h1.
            after_required (find (is_mandate project_id binding.binding_id deletion_id) s.mandates)
              _ h1
              λ mandate e2 h2.
                after_bind
                  (normalize_device_wipe_receipt parse_time iso_string now_ms receipt record {
                    deletion_id = mandate.deletion_id;
                    binding_identity_hmac = binding.binding_identity_hmac;
                    scope = mandate.scope;
                    session_id = mandate.session_id;
                  })
                  h2
                  λ accepted e3 h3.
                    accept_receipt-Final project_id binding deletion_id (receipt_json accepted)
                      mandate.acknowledgement s done h3

  -- An acknowledgement keeps the signing keys sound and the acknowledged mandates.
  pub acknowledge_kept_by :
      (project_id handle token deletion_id : String) (receipt : Json) (s : Store)
      → SigningKeys s
      → Preserved s
          (acknowledge_project_device_wipe_mandate hmac sha256 parse_time iso_string now_ms
            receipt_json acknowledge_hook now project_id handle token deletion_id receipt s).1
  unfolding acknowledge_project_device_wipe_mandate
  acknowledge_kept_by project_id handle token deletion_id receipt s kept =
      in_transaction_kept (Preserved s)
        (acknowledge_run hmac sha256 parse_time iso_string now_ms receipt_json acknowledge_hook now
          project_id handle token deletion_id receipt)
        s
        (λ response t e. (
          acknowledge_run_kept hmac sha256 parse_time iso_string now_ms receipt_json
              acknowledge_hook now project_id handle token deletion_id receipt s (response, t) e
              kept,
          acknowledge_run-Final project_id handle token deletion_id receipt s (response, t) e,
        ))
        (kept, (λ row over found. found))
