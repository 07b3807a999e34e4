-- ===== src/DeviceWipe/Mandates/Replay.antt =====
-- project-device-wipe.service.ts: an acknowledgement that is sent again.
use druvia.Prelude.{
  ℕ, ◌≤◌, String, str_eq, str_eq_self, Bool, true, ◌&&◌, ◌≡◌, refl, ap, subst, Option, none, some,
  List, Result, ok, err, find, after_bind, after_required, after_guard, arith,
}
use druvia.Prelude.Json.{Json}
use druvia.DeviceWipe.Tables.{
  WipeError, Acknowledgement, DeviceWipeBindingRow, DeviceWipeMandateRow, is_pending, Store,
  assert_project_runtime_available, in_transaction, finish_transaction,
}
use druvia.DeviceWipe.Receipt.{ExpectedReceipt, DeviceWipeReceipt, normalize_device_wipe_receipt}
use druvia.DeviceWipe.Receipt.Later.{normalize_device_wipe_receipt_afterwards}
use druvia.DeviceWipe.Rows.{find_holds, find-update_where_changed}
use druvia.DeviceWipe.Keys.Kept.{ok_eq}
use druvia.DeviceWipe.Bindings.{read_authorized_binding}
use druvia.DeviceWipe.Mandates.{
  AcknowledgeResponse, is_mandate, is_mandate_of, store_acknowledgement, acknowledged_row,
  replay_receipt, first_receipt, accept_receipt, acknowledge_run,
  acknowledge_project_device_wipe_mandate,
}

-- What the mandate's row and its binding require.
abbrev expected_of : DeviceWipeBindingRow → DeviceWipeMandateRow → ExpectedReceipt
expected_of binding mandate = record {
  deletion_id = mandate.deletion_id;
  binding_identity_hmac = binding.binding_identity_hmac;
  scope = mandate.scope;
  session_id = mandate.session_id;
}

-- The calls that both requests make alike.
module _ (hmac : String → String → List String → String) (sha256 : String → String)
    (parse_time : String → Option ℕ) (iso_string : ℕ → String) (now_ms : ℕ)
    (receipt_json : DeviceWipeReceipt → String) where
  -- The tables after the first request have a mandate that is acknowledged with its receipt.
  record Accepted (project_id handle token deletion_id : String) (receipt : Json) (at : ℕ)
      (t : Store) : Type 0 where
    binding : DeviceWipeBindingRow
    mandate : DeviceWipeMandateRow
    accepted : DeviceWipeReceipt
    done : Acknowledgement
    open_gate : assert_project_runtime_available t project_id ≡ ok tt
    authorized : read_authorized_binding hmac sha256 t project_id handle token ≡ ok binding
    present : find (is_mandate project_id binding.binding_id deletion_id) t.mandates ≡ some mandate
    valid :
        normalize_device_wipe_receipt parse_time iso_string now_ms receipt
          (expected_of binding mandate)
        ≡ ok accepted
    acknowledged : mandate.acknowledgement ≡ some done
    digest : str_eq done.receipt_digest (sha256 (receipt_json accepted)) ≡ true
    time : done.acknowledged_at ≡ at

  module _ (hook : DeviceWipeBindingRow → String → String → Result WipeError (Unit {0}))
      (now : ℕ) where
    -- An acknowledged mandate answers with its stored time, at that time or later.
    replayed :
        (later_ms : ℕ)
        → now_ms ≤ later_ms
        → (project_id handle token deletion_id : String) (receipt : Json) (at : ℕ) (t : Store)
        → Accepted project_id handle token deletion_id receipt at t
        → acknowledge_run hmac sha256 parse_time iso_string later_ms receipt_json hook now
            project_id handle token deletion_id receipt t
          ≡ ok (record { replay = true; acknowledged_at = at }, t)
    unfolding acknowledge_run accept_receipt replay_receipt
    replayed later_ms after project_id handle token deletion_id receipt at t a =
        let valid =
          normalize_device_wipe_receipt_afterwards parse_time iso_string now_ms later_ms after
            receipt (expected_of a.binding a.mandate) a.accepted a.valid in
        rw (a.open_gate, a.authorized, a.present, valid, a.acknowledged, a.digest, a.time) refl

  module _ (hook : DeviceWipeBindingRow → String → String → Result WipeError (Unit {0}))
      (now : ℕ) where
    abbrev acknowledgement_of : String → Acknowledgement
    acknowledgement_of text = record {
      receipt_json = text;
      receipt_digest = sha256 text;
      acknowledged_at = now;
    }

    abbrev stored : String → DeviceWipeBindingRow → String → String → Store → Bool × Store
    stored project_id binding deletion_id text s =
        store_acknowledgement s project_id binding.binding_id deletion_id (acknowledgement_of text)

    -- The answer to a request that found what it needs, by what the mandate has.
    Accepted-by :
        (project_id handle token deletion_id : String) (receipt : Json) (s : Store)
        (binding : DeviceWipeBindingRow) (mandate : DeviceWipeMandateRow)
        (accepted : DeviceWipeReceipt) (acknowledgement : Option Acknowledgement)
        (done : AcknowledgeResponse × Store)
        → assert_project_runtime_available s project_id ≡ ok tt
        → read_authorized_binding hmac sha256 s project_id handle token ≡ ok binding
        → find (is_mandate project_id binding.binding_id deletion_id) s.mandates ≡ some mandate
        → normalize_device_wipe_receipt parse_time iso_string now_ms receipt
            (expected_of binding mandate)
          ≡ ok accepted
        → mandate.acknowledgement ≡ acknowledgement
        → accept_receipt hmac sha256 parse_time iso_string now_ms receipt_json hook now project_id
            binding deletion_id
            (receipt_json accepted)
            acknowledgement
            s
          ≡ ok done
        → Accepted project_id handle token deletion_id receipt done.0.acknowledged_at done.1
    unfolding accept_receipt replay_receipt first_receipt store_acknowledgement acknowledged_row
        is_mandate is_mandate_of read_authorized_binding assert_project_runtime_available is_pending
    Accepted-by project_id handle token deletion_id receipt s binding mandate accepted (some before)
          done gate authorized present valid same h =
        after_guard (str_eq before.receipt_digest (sha256 (receipt_json accepted))) _ h λ digest h0.
          subst (λ d. Accepted project_id handle token deletion_id receipt d.0.acknowledged_at d.1)
            (ok_eq h0)
            record {
              binding = binding;
              mandate = mandate;
              accepted = accepted;
              done = before;
              open_gate = gate;
              authorized = authorized;
              present = present;
              valid = valid;
              acknowledged = same;
              digest = digest;
              time = refl;
            }
    Accepted-by project_id handle token deletion_id receipt s binding mandate accepted none done
          gate authorized present valid same h =
        after_bind (hook binding deletion_id (receipt_json accepted)) h λ called e h0.
          after_guard (stored project_id binding deletion_id (receipt_json accepted) s).0 _ h0
            λ updated h1.
              subst
                (λ d. Accepted project_id handle token deletion_id receipt d.0.acknowledged_at d.1)
                (ok_eq h1)
                record {
                  binding = binding;
                  mandate = acknowledged_row (acknowledgement_of (receipt_json accepted)) mandate;
                  accepted = accepted;
                  done = acknowledgement_of (receipt_json accepted);
                  open_gate = gate;
                  authorized = authorized;
                  present =
                      find-update_where_changed
                        (is_mandate project_id binding.binding_id deletion_id)
                        (λ (row : DeviceWipeMandateRow).
                          is_mandate project_id binding.binding_id deletion_id row
                          && is_pending row)
                        (acknowledged_row (acknowledgement_of (receipt_json accepted))) s.mandates
                        mandate (λ row. refl)
                        (ground (
                          arith,
                          find_holds (is_mandate project_id binding.binding_id deletion_id)
                              s.mandates mandate present,
                        ))
                        present;
                  valid = valid;
                  acknowledged = refl;
                  digest = str_eq_self (sha256 (receipt_json accepted));
                  time = refl;
                }

    ran :
        (project_id handle token deletion_id : String) (receipt : Json) (s : Store)
        (done : AcknowledgeResponse × Store)
        → acknowledge_run hmac sha256 parse_time iso_string now_ms receipt_json hook now project_id
            handle token deletion_id receipt s
          ≡ ok done
        → Accepted project_id handle token deletion_id receipt done.0.acknowledged_at done.1
    unfolding acknowledge_run
    ran project_id handle token deletion_id receipt s done h =
        after_bind (assert_project_runtime_available s project_id) h λ available e0 h0.
          after_bind (read_authorized_binding hmac sha256 s project_id handle token) h0
            λ binding e1 h1.
              after_required
                (find (is_mandate project_id binding.binding_id deletion_id) s.mandates) _ h1
                λ mandate e2 h2.
                  after_bind
                    (normalize_device_wipe_receipt parse_time iso_string now_ms receipt
                      (expected_of binding mandate))
                    h2
                    λ accepted e3 h3.
                      Accepted-by project_id handle token deletion_id receipt s binding mandate
                        accepted mandate.acknowledgement done e0 e1 e2 e3 refl h3

  committed :
      (response : AcknowledgeResponse) (s t : Store)
      (result : Result WipeError (AcknowledgeResponse × Store))
      → finish_transaction s result ≡ (ok response, t)
      → result ≡ ok (response, t)
  unfolding finish_transaction
  committed response s t (ok done) h = cc
  committed response s t (err thrown) h = cc

  -- An acknowledgement that was answered, sent again with the same credential and receipt to the
  -- tables that it left, when the clock of the server shows the same time or a later one, is answered
  -- as a replay with the same time, changes nothing, and does not depend on the function of the
  -- project or the clock of the database.
  pub acknowledge_again :
      (hook again : DeviceWipeBindingRow → String → String → Result WipeError (Unit {0}))
      (now later later_ms : ℕ) (project_id handle token deletion_id : String) (receipt : Json)
      (response : AcknowledgeResponse) (s t : Store)
      → acknowledge_project_device_wipe_mandate hmac sha256 parse_time iso_string now_ms
          receipt_json hook now project_id handle token deletion_id receipt s
        ≡ (ok response, t)
      → now_ms ≤ later_ms
      → acknowledge_project_device_wipe_mandate hmac sha256 parse_time iso_string later_ms
          receipt_json again later project_id handle token deletion_id receipt t
        ≡ (ok record { replay = true; acknowledged_at = response.acknowledged_at }, t)
  unfolding acknowledge_project_device_wipe_mandate in_transaction finish_transaction
  acknowledge_again hook again now later later_ms project_id handle token deletion_id receipt
        response s t h after =
      ap (finish_transaction t) (
        replayed again later later_ms after project_id handle token deletion_id receipt
          response.acknowledged_at t
          (ran hook now project_id handle token deletion_id receipt s (response, t)
            (committed response s t _ h)))
