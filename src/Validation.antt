-- ===== src/Validation.antt =====
-- backend/src/powerguard/mqtt/validation.py: what happens to one message before any storage.
pub mod Outcomes
mod Tests
use aiot_powerguard.Prelude.{
  ℕ, Bool, true, false, not, ◌&&◌, ◌||◌, Option, none, some, List, ◌==◌, list_eq, nat_eq, ltb,
  length, if◌then◌else◌,
}
use aiot_powerguard.Prelude.Dict.{Dict}
use aiot_powerguard.Text.{Text, codes}
use aiot_powerguard.Topics.{TopicKind, ParsedTopic, parse_topic}
use aiot_powerguard.Measure.{Floats}
use aiot_powerguard.Settings.{Settings}
use aiot_powerguard.Payload.{
  Value, Calendar, Checked, good, bad, TelemetryPayload, StatusPayload, telemetry_model,
  status_model,
}

pub data RejectionReason : Type 0 where
  topic_invalid payload_too_large utf8_invalid json_invalid schema_invalid : RejectionReason
  version_unsupported measurement_out_of_range power_inconsistent : RejectionReason

-- the hint of a rejection: nothing, a field's name, or the size limit
pub data Detail : Type 0 where
  no_detail : Detail
  at_field : Text → Detail
  limit : ℕ → Detail

pub data ValidationResult (F : Type 0) : Type 0 where
  valid_telemetry : ParsedTopic → TelemetryPayload F → ValidationResult F
  valid_status : ParsedTopic → StatusPayload → Bool → ValidationResult F
  invalid : RejectionReason → Detail → ValidationResult F

-- What `json.loads` does: a top-level object, another value, a `JSONDecodeError`, or another
-- exception (nesting that exhausts the stack, a numeral that is too long).
pub data Loaded (F : Type 0) : Type 0 where
  object : Dict Text (Value F) → Loaded F
  other_root : Loaded F
  decode_error : Loaded F
  escapes : Loaded F

-- The parts of the standard library that a message passes through.
pub record Codec (F : Type 0) : Type 0 where
  pub decode_utf8 : List ℕ → Option Text
  pub loads : Text → Loaded F
  pub calendar : Calendar

-- `_schema_reason`
unfoldable pub schema_reason : Text → RejectionReason
schema_reason location =
    if location == codes "schema_version" then version_unsupported else schema_invalid

module _ {F : Type 0} (fl : Floats F) (settings : Settings F) where
  open fl use {le, lt, mul, sub, abs}
  open settings use {
    min_voltage_v, max_voltage_v, max_abs_current_a, max_abs_power_w, power_rel_tolerance,
  }

  -- `_check_measurement_bounds`; the field that is out of range
  unfoldable pub check_measurement_bounds : TelemetryPayload F → Option Text
  check_measurement_bounds p =
      if not (le min_voltage_v p.voltage_v && le p.voltage_v max_voltage_v)
      then some (codes "voltage_v")
      else if lt max_abs_current_a (abs p.current_a)
      then some (codes "current_a")
      else if lt max_abs_power_w (abs p.power_w)
      then some (codes "power_w")
      else none

  -- Python's `max(allowed, 0.05)`
  abbrev pub allowed_power : TelemetryPayload F → F
  allowed_power p =
      let allowed = mul (abs (mul p.voltage_v p.current_a)) power_rel_tolerance in
      if lt allowed fl.power_floor then fl.power_floor else allowed

  -- `_check_power_consistency`; true if the reported power is refused
  unfoldable pub check_power_consistency : TelemetryPayload F → Bool
  check_power_consistency p =
      if le power_rel_tolerance fl.zero_f
      then false
      else lt (allowed_power p) (abs (sub p.power_w (mul p.voltage_v p.current_a)))

  checked_telemetry : ParsedTopic → Checked (TelemetryPayload F) → ValidationResult F
  unfolding schema_reason check_measurement_bounds check_power_consistency
  checked_telemetry parsed (bad loc) = invalid (schema_reason loc) (at_field loc)
  checked_telemetry parsed (good p) = elim (check_measurement_bounds p) [
    | some name ↦ invalid measurement_out_of_range (at_field name)
    | none ↦
        if check_power_consistency p
        then invalid power_inconsistent (at_field (codes "power_w"))
        else valid_telemetry parsed p
  ]

  checked_status : ParsedTopic → Bool → Checked StatusPayload → ValidationResult F
  unfolding schema_reason
  checked_status parsed retained (bad loc) = invalid (schema_reason loc) (at_field loc)
  checked_status parsed retained (good p) = valid_status parsed p retained

  module _ (codec : Codec F) where
    open codec use {decode_utf8, loads, calendar}

    checked_document : ParsedTopic → TopicKind → Bool → Dict Text (Value F) → ValidationResult F
    unfolding checked_telemetry checked_status
    checked_document parsed TopicKind.telemetry retained d =
        checked_telemetry parsed (telemetry_model calendar fl d)
    checked_document parsed TopicKind.status retained d =
        checked_status parsed retained (status_model calendar d)

    -- The clause of `validate_message` after the size test. `none` is an exception that no
    -- `except` of the function names.
    checked_payload : ParsedTopic → List ℕ → Bool → Option (ValidationResult F)
    unfolding checked_document
    checked_payload parsed payload retained = elim (decode_utf8 payload) [
      | none ↦ some (invalid utf8_invalid no_detail)
      | some text ↦ elim (loads text) [
        | escapes ↦ none
        | decode_error ↦ some (invalid json_invalid no_detail)
        | other_root ↦ some (invalid schema_invalid (at_field (codes "root")))
        | object d ↦ some (checked_document parsed parsed.kind retained d)
      ]
    ]

    unfoldable pub validate_message : Text → List ℕ → Bool → Option (ValidationResult F)
    unfolding checked_payload
    validate_message topic payload retained = elim (parse_topic topic) [
      | none ↦ some (invalid topic_invalid no_detail)
      | some parsed ↦
          if ltb settings.max_payload_bytes (length payload)
          then some (invalid payload_too_large (limit settings.max_payload_bytes))
          else checked_payload parsed payload retained
    ]
