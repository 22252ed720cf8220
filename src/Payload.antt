-- ===== src/Payload.antt =====
-- backend/src/powerguard/mqtt/schemas.py: the strict payload models of MQTT v1. The order of the
-- checks is the order of pydantic's errors: the fields as declared, then unknown fields.
mod Checks
pub mod Sound
unfoldable pub use Checks.*
use aiot_powerguard.Prelude.{
  ℕ, Bool, true, false, ◌&&◌, Option, none, some, List, [], ◌∷◌, ◌==◌, ◌≡◌, contains, list_eq,
  nat_eq, if◌then◌else◌, ltb, leb, length,
}
use aiot_powerguard.Prelude.Int.{ℤ, pos, negsuc}
use aiot_powerguard.Prelude.Dict.{Dict, lookup}
use aiot_powerguard.Text.{Text, codes}
use aiot_powerguard.Measure.{Floats}

pub record TelemetryPayload (F : Type 0) : Type 0 where
  pub boot_id : Text
  pub seq : ℕ
  pub sampled_at : Option Text
  pub voltage_v : F
  pub current_a : F
  pub power_w : F
  pub energy_wh : F
  pub firmware_version : Text

pub data ReportedStatus : Type 0 where
  online offline : ReportedStatus

pub record StatusPayload : Type 0 where
  pub status : ReportedStatus
  pub boot_id : Text
  pub firmware_version : Text

abbrev pub telemetry_fields : List Text
telemetry_fields =
    codes "schema_version"
    ∷ codes "boot_id"
    ∷ codes "seq"
    ∷ codes "sampled_at"
    ∷ codes "voltage_v"
    ∷ codes "current_a"
    ∷ codes "power_w"
    ∷ codes "energy_wh"
    ∷ codes "sensor_status"
    ∷ codes "firmware_version"
    ∷ []

abbrev pub status_fields : List Text
status_fields =
    codes "schema_version" ∷ codes "status" ∷ codes "boot_id" ∷ codes "firmware_version" ∷ []

module _ {F : Type 0} where
  check_reported : Value F → Checked ReportedStatus
  check_reported (str s) =
      if s == codes "online"
      then good online
      else if s == codes "offline"
      then good offline
      else bad (codes "status")
  check_reported _ = bad (codes "status")

  -- `TelemetryPayloadV1.model_validate`
  unfoldable pub telemetry_model :
      Calendar → Floats F → Dict Text (Value F) → Checked (TelemetryPayload F)
  telemetry_model cal fl d = do
    version ← field (codes "schema_version") d
    check_schema_version version
    boot_id ← validate_boot_id (← field (codes "boot_id") d)
    seq ← check_seq (← field (codes "seq") d)
    sampled_at ← check_sampled_at cal (← field (codes "sampled_at") d)
    voltage_v ← check_number fl (codes "voltage_v") (← field (codes "voltage_v") d)
    current_a ← check_number fl (codes "current_a") (← field (codes "current_a") d)
    power_w ← check_number fl (codes "power_w") (← field (codes "power_w") d)
    energy_wh ← check_energy fl (← field (codes "energy_wh") d)
    sensor_status ← field (codes "sensor_status") d
    check_sensor_status sensor_status
    firmware_version ← validate_firmware_version cal (← field (codes "firmware_version") d)
    forbid_extra telemetry_fields d
    good (record {
      boot_id = boot_id;
      seq = seq;
      sampled_at = sampled_at;
      voltage_v = voltage_v;
      current_a = current_a;
      power_w = power_w;
      energy_wh = energy_wh;
      firmware_version = firmware_version;
    })

  -- `StatusPayloadV1.model_validate`
  unfoldable pub status_model : Calendar → Dict Text (Value F) → Checked StatusPayload
  unfolding check_reported
  status_model cal d = do
    version ← field (codes "schema_version") d
    check_schema_version version
    status ← check_reported (← field (codes "status") d)
    boot_id ← validate_boot_id (← field (codes "boot_id") d)
    firmware_version ← validate_firmware_version cal (← field (codes "firmware_version") d)
    forbid_extra status_fields d
    good (record { status = status; boot_id = boot_id; firmware_version = firmware_version })
