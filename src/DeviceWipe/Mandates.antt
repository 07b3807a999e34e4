-- ===== src/DeviceWipe/Mandates.antt =====
-- apps/api/src/modules/project-auth/project-device-wipe.service.ts: the mandates of a device, queried
-- and acknowledged.
pub mod Kept
pub mod Final
pub mod Replay
use druvia.Prelude.{
  ℕ, String, str_eq, opt_is, if◌then◌else◌, Bool, true, false, not, ◌&&◌, ◌||◌, Option, none, some,
  List, [], ◌∷◌, ◌++◌, Result, ok, err, ◌>>=◌, ◌>>◌, guard, required, any, find, select, map,
}
use druvia.Prelude.Json.{Json}
use druvia.DeviceWipe.Tables.{
  WipeError, device_wipe, database, WipeScope, account, session, scope_eq, DeviceWipeCommand,
  Acknowledgement, DeviceWipeBindingRow, DeviceWipeSigningKeyRow, DeviceWipeMandateRow,
  DeviceWipeMandateSource, is_pending, Store, update_where, assert_project_runtime_available,
  in_transaction,
}
use druvia.DeviceWipe.Crypto.{build_device_wipe_command}
use druvia.DeviceWipe.Receipt.{ExpectedReceipt, DeviceWipeReceipt, normalize_device_wipe_receipt}
use druvia.DeviceWipe.Keys.{device_wipe_unavailable, read_active_signing_key}
use druvia.DeviceWipe.Bindings.{read_authorized_binding}

pub record MandateEnvelope : Type 0 where
  pub key_id : String
  pub command : DeviceWipeCommand
  pub signature : String

-- mandateEnvelope
pub mandate_envelope : DeviceWipeMandateRow → MandateEnvelope
mandate_envelope row = record {
  key_id = row.key_id;
  command = row.command;
  signature = row.signature;
}

session_eq : Option String → Option String → Bool
session_eq none none = true
session_eq (some id) other_id = opt_is other_id id
session_eq none (some id) = false

-- mandateMatchesSource
pub mandate_matches_source : DeviceWipeMandateRow → DeviceWipeMandateSource → Bool
unfolding session_eq scope_eq
mandate_matches_source row source =
    scope_eq row.scope source.scope && session_eq row.session_id source.session_id

pub is_mandate_of : String → String → DeviceWipeMandateRow → Bool
is_mandate_of project_id binding_id row =
    str_eq row.project_id project_id && str_eq row.binding_id binding_id

pub is_mandate : String → String → String → DeviceWipeMandateRow → Bool
unfolding is_mandate_of
is_mandate project_id binding_id deletion_id row =
    is_mandate_of project_id binding_id row && str_eq row.deletion_id deletion_id

-- readMandates, in the order in which the rows were inserted.
pub read_mandates : Store → String → String → List DeviceWipeMandateRow
unfolding is_mandate_of
read_mandates s project_id binding_id = select (is_mandate_of project_id binding_id) s.mandates

-- The INSERT, under the primary key.
pub insert_mandate : Store → DeviceWipeMandateRow → Result WipeError Store
unfolding is_mandate
insert_mandate s new =
    guard (not (any (is_mandate new.project_id new.binding_id new.deletion_id) s.mandates))
      (database "23505")
    >> ok record s { mandates = s.mandates ++ new ∷ [] }

-- `activeKey ??= …`
active_key :
    Store → String → Option DeviceWipeSigningKeyRow → Result WipeError DeviceWipeSigningKeyRow
active_key s project_id (some key) = ok key
active_key s project_id none = read_active_signing_key s project_id

acknowledged_row : Acknowledgement → DeviceWipeMandateRow → DeviceWipeMandateRow
acknowledged_row done row = record row { acknowledgement = some done }

-- The UPDATE of the pending mandate; whether a row was updated.
pub store_acknowledgement : Store → String → String → String → Acknowledgement → Bool × Store
unfolding is_mandate acknowledged_row update_where is_pending
store_acknowledgement s project_id binding_id deletion_id done =
    let test = λ (row : DeviceWipeMandateRow).
      is_mandate project_id binding_id deletion_id row && is_pending row in
    (
      any test s.mandates,
      record s { mandates = update_where test (acknowledged_row done) s.mandates },
    )

pub record AcknowledgeResponse : Type 0 where
  pub replay : Bool
  pub acknowledged_at : ℕ

module _ (hmac : String → String → List String → String) (sha256 : String → String) where
  -- The binding that is found is one of the project of the request, so that `binding.project_id` is
  -- that project. `private_key` decrypts a stored key and reads it, and may throw; `sign` signs a command under a
  -- key id; `list_hook` is the project's function; `sorted` sorts by the deletion id.
  module _ (private_key : String → Option String)
      (sign : String → DeviceWipeCommand → String → String)
      (list_hook : DeviceWipeBindingRow → Result WipeError (List DeviceWipeMandateSource))
      (sorted : List DeviceWipeMandateSource → List DeviceWipeMandateSource) where
    -- One source that has no mandate yet.
    materialize_source :
        DeviceWipeBindingRow
        → DeviceWipeMandateSource
        → DeviceWipeSigningKeyRow
        → Store
        → Result WipeError (MandateEnvelope × Store)
    unfolding insert_mandate mandate_envelope
    materialize_source binding source key s = do
      private ← required (private_key key.private_jwk_encrypted) device_wipe_unavailable
      command ←
          build_device_wipe_command source.deletion_id binding.project_id
            binding.project_user_fingerprint binding.binding_identity_hmac binding.binding_revision
            source.scope source.session_id
      let row : DeviceWipeMandateRow = record {
        project_id = binding.project_id;
        binding_id = binding.binding_id;
        deletion_id = source.deletion_id;
        scope = source.scope;
        session_id = source.session_id;
        key_id = key.key_id;
        command = command;
        signature = sign key.key_id command private;
        acknowledgement = none;
      }
      inserted ← insert_mandate s row
      ok (mandate_envelope row, inserted)

    -- The loop over the sources; `existing` are the mandates from before it.
    pub materialize_sources :
        DeviceWipeBindingRow
        → List DeviceWipeMandateRow
        → List DeviceWipeMandateSource
        → Option DeviceWipeSigningKeyRow
        → Store
        → Result WipeError (List MandateEnvelope × Store)
    unfolding mandate_matches_source active_key materialize_source
    materialize_sources binding existing [] key s = ok ([], s)
    materialize_sources binding existing (source ∷ sources) key s =
        elim (find (λ (row : DeviceWipeMandateRow). str_eq row.deletion_id source.deletion_id)
          existing) [
            | some row ↦
                guard (mandate_matches_source row source)
                  (device_wipe "DEVICE_WIPE_MANDATE_CONFLICT" 409)
                >> materialize_sources binding existing sources key s
            | none ↦ do
              used ← active_key s binding.project_id key
              made ← materialize_source binding source used s
              rest ← materialize_sources binding existing sources (some used) made.1
              ok (made.0 ∷ rest.0, rest.1)
          ]

    -- No mandate is pending: the project's function is asked, unless the binding is retired.
    query_sources :
        Bool
        → DeviceWipeBindingRow
        → List DeviceWipeMandateRow
        → Store
        → Result WipeError (List MandateEnvelope × Store)
    unfolding materialize_sources
    query_sources false binding existing s = ok ([], s)
    query_sources true binding existing s = do
      sources ← list_hook binding
      materialize_sources binding existing (sorted sources) none s

    -- The mandates that are pending, or else those that the project's function gives.
    answer_query :
        DeviceWipeBindingRow
        → List DeviceWipeMandateRow
        → List DeviceWipeMandateRow
        → Store
        → Result WipeError (List MandateEnvelope × Store)
    unfolding query_sources mandate_envelope
    answer_query binding existing [] s = query_sources binding.is_active binding existing s
    answer_query binding existing (row ∷ rows) s = ok (map mandate_envelope (row ∷ rows), s)

    pub query_run :
        String → String → String → Store → Result WipeError (List MandateEnvelope × Store)
    unfolding answer_query read_mandates is_pending assert_project_runtime_available
    query_run project_id handle token s = do
      assert_project_runtime_available s project_id
      binding ← read_authorized_binding hmac sha256 s project_id handle token
      let existing = read_mandates s project_id binding.binding_id
      answer_query binding existing (select is_pending existing) s

    unfoldable pub query_project_device_wipe_mandates :
        String → String → String → Store → Result WipeError (List MandateEnvelope) × Store
    unfolding query_run in_transaction
    query_project_device_wipe_mandates project_id handle token s =
        in_transaction (query_run project_id handle token) s

  -- `receipt_json` writes a receipt with its keys sorted, `acknowledge_hook` is the project's
  -- function, `now_ms` the time of the server and `now` that of the database.
  module _ (parse_time : String → Option ℕ) (iso_string : ℕ → String) (now_ms : ℕ)
      (receipt_json : DeviceWipeReceipt → String)
      (acknowledge_hook : DeviceWipeBindingRow → String → String → Result WipeError (Unit {0}))
      (now : ℕ) where
    -- A mandate that is acknowledged: the same receipt again.
    replay_receipt :
        Acknowledgement → String → Store → Result WipeError (AcknowledgeResponse × Store)
    replay_receipt done digest s =
        guard (str_eq done.receipt_digest digest) (device_wipe "DEVICE_WIPE_RECEIPT_CONFLICT" 409)
        >> ok (record { replay = true; acknowledged_at = done.acknowledged_at }, s)

    -- A mandate that is pending.
    first_receipt :
        String
        → DeviceWipeBindingRow
        → String
        → String
        → String
        → Store
        → Result WipeError (AcknowledgeResponse × Store)
    unfolding store_acknowledgement
    first_receipt project_id binding deletion_id text digest s = do
      acknowledge_hook binding deletion_id text
      let updated =
          store_acknowledgement s project_id binding.binding_id deletion_id
            record { receipt_json = text; receipt_digest = digest; acknowledged_at = now }
      guard updated.0 device_wipe_unavailable
      ok (record { replay = false; acknowledged_at = now }, updated.1)

    -- The receipt of a mandate, by what the mandate has.
    accept_receipt :
        String
        → DeviceWipeBindingRow
        → String
        → String
        → Option Acknowledgement
        → Store
        → Result WipeError (AcknowledgeResponse × Store)
    unfolding replay_receipt first_receipt
    accept_receipt project_id binding deletion_id text (some done) s =
        replay_receipt done (sha256 text) s
    accept_receipt project_id binding deletion_id text none s =
        first_receipt project_id binding deletion_id text (sha256 text) s

    pub acknowledge_run :
        String
        → String
        → String
        → String
        → Json
        → Store
        → Result WipeError (AcknowledgeResponse × Store)
    unfolding is_mandate accept_receipt assert_project_runtime_available
    acknowledge_run project_id handle token deletion_id receipt s = do
      assert_project_runtime_available s project_id
      binding ← read_authorized_binding hmac sha256 s project_id handle token
      mandate ←
          required (find (is_mandate project_id binding.binding_id deletion_id) s.mandates)
            (device_wipe "DEVICE_WIPE_MANDATE_NOT_FOUND" 404)
      accepted ← normalize_device_wipe_receipt parse_time iso_string now_ms receipt record {
        deletion_id = mandate.deletion_id;
        binding_identity_hmac = binding.binding_identity_hmac;
        scope = mandate.scope;
        session_id = mandate.session_id;
      }
      accept_receipt project_id binding deletion_id (receipt_json accepted) mandate.acknowledgement
          s

    unfoldable pub acknowledge_project_device_wipe_mandate :
        String
        → String
        → String
        → String
        → Json
        → Store
        → Result WipeError AcknowledgeResponse × Store
    unfolding acknowledge_run in_transaction
    acknowledge_project_device_wipe_mandate project_id handle token deletion_id receipt s =
        in_transaction (acknowledge_run project_id handle token deletion_id receipt) s
