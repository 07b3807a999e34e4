-- ===== src/DeviceWipe/Receipt.antt =====
-- apps/api/src/modules/project-auth/project-device-wipe.service.ts: normalizeDeviceWipeReceipt. Times
-- are counted in milliseconds from the earliest one of Date; `parse_time` and `iso_string` are those
-- of Date.
pub mod Later
use druvia.Prelude.{
  ℕ, suc, ◌+◌, ◌==◌, leb, String, str_eq, opt_is, includes, if◌then◌else◌, Bool, true, false, ◌&&◌,
  Option, none, some, List, [], ◌∷◌, Result, ok, err,
}
use druvia.Prelude.Json.{Json, null, Members, end, member, object, as_text, as_number, property}
use druvia.DeviceWipe.Tables.{WipeError, device_wipe, WipeScope, account, session}

-- What the mandate and its binding require of a receipt.
pub record ExpectedReceipt : Type 0 where
  pub deletion_id : String
  pub binding_identity_hmac : String
  pub scope : WipeScope
  pub session_id : Option String

-- An accepted receipt has no members but these.
pub record DeviceWipeReceipt : Type 0 where
  pub deletion_id : String
  pub binding_identity_hmac : String
  pub scope : WipeScope
  pub session_id : Option String
  pub completed_at : String

count_members : Members → ℕ
count_members end = 0
count_members (member name value rest) = suc (count_members rest)

-- Object.keys(value).length
pub key_count : Option Json → ℕ
unfolding count_members
key_count (some (object members)) = count_members members
key_count _ = 0

-- value?.key
pub optional_property : String → Option Json → Option Json
unfolding property
optional_property key none = none
optional_property key (some value) = property key value

-- Object.keys(receipt).every((key) => names.includes(key))
pub only_members : List String → Members → Bool
only_members names end = true
only_members names (member name value rest) = includes names name && only_members names rest

abbrev receipt_keys : List String
receipt_keys =
    "version" ∷ "deletionID" ∷ "scope" ∷ "bindingIdentityHMAC" ∷ "completedAt" ∷ "result" ∷ []

is_text : Option Json → String → Bool
unfolding as_text
is_text value wanted = opt_is (as_text value) wanted

is_one : Option Json → Bool
unfolding as_number
is_one value = elim (as_number value) [ none ↦ false | some n ↦ n == 1 ]

is_null : Option Json → Bool
is_null (some null) = true
is_null _ = false

-- { rawValue: wanted } and nothing else.
is_raw_value : Option Json → String → Bool
unfolding is_text key_count optional_property
is_raw_value value wanted =
    is_text (optional_property "rawValue" value) wanted && key_count value == 1

-- The scope of the receipt is that of the mandate.
pub is_expected_scope : Option Json → ExpectedReceipt → Bool
unfolding is_text key_count optional_property is_raw_value is_null
is_expected_scope scope expected = elim expected.scope [
  | account ↦ is_text (optional_property "kind" scope) "account" && key_count scope == 1
  | session ↦ elim expected.session_id [
    | none ↦
        is_text (optional_property "kind" scope) "session"
        && (key_count scope == 2
            && (is_null (optional_property "rawValue" (optional_property "sessionID" scope))
                && key_count (optional_property "sessionID" scope) == 1))
    | some id ↦
        is_text (optional_property "kind" scope) "session"
        && (key_count scope == 2 && is_raw_value (optional_property "sessionID" scope) id)
  ]
]

module _ (parse_time : String → Option ℕ) (iso_string : ℕ → String) (now : ℕ) where
  -- A time in the form of toISOString, at most five minutes from now.
  pub completed_time : Option Json → Option String
  unfolding as_text
  completed_time value = elim (as_text value) [
    | none ↦ none
    | some completed_at ↦ elim (parse_time completed_at) [
      | none ↦ none
      | some time ↦
          if str_eq (iso_string time) completed_at && leb time (now + 300000)
          then some completed_at
          else none
    ]
  ]

  abbrev invalid : {A : Type 0} → Result WipeError A
  invalid = err (device_wipe "DEVICE_WIPE_RECEIPT_INVALID" 400)

  -- The condition of the source, but for the time.
  pub receipt_matches : Members → ExpectedReceipt → Bool
  unfolding is_one is_raw_value is_text is_expected_scope only_members property
  receipt_matches members expected =
      is_one (property "version" (object members))
      && (is_raw_value (property "deletionID" (object members)) expected.deletion_id
          && (is_text (property "bindingIdentityHMAC" (object members))
                expected.binding_identity_hmac
              && (is_expected_scope (property "scope" (object members)) expected
                  && (is_text (property "result" (object members)) "erased"
                      && only_members receipt_keys members))))

  unfoldable pub normalize_device_wipe_receipt :
      Json → ExpectedReceipt → Result WipeError DeviceWipeReceipt
  unfolding receipt_matches completed_time property
  normalize_device_wipe_receipt (object members) expected =
      elim (completed_time (property "completedAt" (object members))) [
        | none ↦ invalid
        | some completed_at ↦
            if receipt_matches members expected
            then ok record {
              deletion_id = expected.deletion_id;
              binding_identity_hmac = expected.binding_identity_hmac;
              scope = expected.scope;
              session_id = expected.session_id;
              completed_at = completed_at;
            }
            else invalid
      ]
  normalize_device_wipe_receipt _ expected = invalid
