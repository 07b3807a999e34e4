-- ===== src/DeviceWipe/Receipt/Later.antt =====
-- project-device-wipe.service.ts: a receipt that is accepted is accepted at every later time.
use druvia.Prelude.{ℕ, ◌≤◌, String, ◌≡◌, Option, some, Option-cases, inl, inr, refl, ok, arith}
use druvia.Prelude.Json.{Json, Members, object, property}
use druvia.DeviceWipe.Receipt.{
  ExpectedReceipt, DeviceWipeReceipt, completed_time, receipt_matches,
  normalize_device_wipe_receipt,
}

module _ (parse_time : String → Option ℕ) (iso_string : ℕ → String) (now later : ℕ)
    (after : now ≤ later) where
  completed_time_afterwards :
      (value : Option Json) (at : String)
      → completed_time parse_time iso_string now value ≡ some at
      → completed_time parse_time iso_string later value ≡ some at
  unfolding completed_time
  completed_time_afterwards value at h = ground arith

  receipt_matches_afterwards :
      (members : Members) (expected : ExpectedReceipt)
      → receipt_matches parse_time iso_string now members expected
        ≡ receipt_matches parse_time iso_string later members expected
  unfolding receipt_matches
  receipt_matches_afterwards members expected = refl

  pub normalize_device_wipe_receipt_afterwards :
      (receipt : Json) (expected : ExpectedReceipt) (accepted : DeviceWipeReceipt)
      → normalize_device_wipe_receipt parse_time iso_string now receipt expected ≡ ok accepted
      → normalize_device_wipe_receipt parse_time iso_string later receipt expected ≡ ok accepted
  unfolding normalize_device_wipe_receipt
  normalize_device_wipe_receipt_afterwards (object members) expected accepted h =
      let value = property "completedAt" (object members) in
      elim (Option-cases (completed_time parse_time iso_string now value)) [
        | inl missing ↦ absurd (ground (arith, missing))
        | inr (at, timed) ↦ ground (
          arith,
          timed,
          completed_time_afterwards value at timed,
          receipt_matches_afterwards members expected,
        )
      ]
  normalize_device_wipe_receipt_afterwards receipt expected accepted h = ground arith
