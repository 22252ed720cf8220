-- ===== src/Validation/Tests.antt =====
-- The validation of a concrete message, with measurements as natural numbers.
use aiot_powerguard.Prelude.{
  ℕ, ◌≡◌, ◌≤◌, ◌-◌, ◌*◌, ◌↔◌, ◌&&◌, refl, arith, true, false, some, none, [], ◌∷◌, ltb, leb,
  is_some, list_eq, nat_eq, ℕ_discrete,
}
use aiot_powerguard.Prelude.Int.{ℤ, pos, negsuc}
use aiot_powerguard.Prelude.Dict.{Dict, lookup}
use aiot_powerguard.Text.{Text, codes, match_exactly}
use aiot_powerguard.Text.Regex.{full_match, derivative, nullable}
use aiot_powerguard.Topics.{ParsedTopic, telemetry, telemetry_topic, parse_topic}
use aiot_powerguard.Measure.{Floats}
use aiot_powerguard.Settings.{Settings}
use aiot_powerguard.Payload.{
  Value, int, str, null, Calendar, good, TelemetryPayload, telemetry_model, field, validate_boot_id,
  check_seq, check_sampled_at, check_number, check_energy, check_sensor_status,
  validate_firmware_version, forbid_extra, boot_id_ok, firmware_version_ok, semver,
}
use aiot_powerguard.Payload.Sound.{IsSound, telemetry_model-IsSound}
use aiot_powerguard.Validation.{
  Codec, Loaded, object, escapes, RejectionReason, Detail, invalid, valid_telemetry,
  validate_message,
}
use aiot_powerguard.Validation.Outcomes.{
  Accepts, validate_message-telemetry_iff, validate_message-escape_iff, validate_message-too_large,
}

abbrev to_nat : ℤ → ℕ
to_nat (pos n) = n
to_nat (negsuc n) = n

abbrev fl : Floats ℕ
fl = record {
  le = leb;
  lt = ltb;
  mul = λ a b. a * b;
  sub = λ a b. a - b;
  abs = λ a. a;
  is_finite = λ _. true;
  of_int = to_nat;
  zero_f = 0;
  power_floor = 1;
}

abbrev settings : Settings ℕ
settings = record {
  max_payload_bytes = 4;
  min_voltage_v = 0;
  max_voltage_v = 300;
  max_abs_current_a = 30;
  max_abs_power_w = 9000;
  power_rel_tolerance = 1;
  mqtt_ingress_queue_size = 8;
  ws_max_connections = 2;
  ws_queue_size = 1;
  stale_after = 15;
  mqtt_enabled = true;
}

abbrev calendar : Calendar
calendar = record { decimal = λ c. leb b'0' c && leb c b'9'; strptime = λ _. none }

abbrev document : Dict Text (Value ℕ)
document =
    (codes "schema_version", int (pos 1))
    ∷ (codes "boot_id", str (codes "deadbeef"))
    ∷ (codes "seq", int (pos 7))
    ∷ (codes "sampled_at", null)
    ∷ (codes "voltage_v", int (pos 12))
    ∷ (codes "current_a", int (pos 2))
    ∷ (codes "power_w", int (pos 24))
    ∷ (codes "energy_wh", int (pos 1))
    ∷ (codes "sensor_status", str (codes "ok"))
    ∷ (codes "firmware_version", str (codes "1.0.0"))
    ∷ []

abbrev reading : TelemetryPayload ℕ
reading = record {
  boot_id = codes "deadbeef";
  seq = 7;
  sampled_at = none;
  voltage_v = 12;
  current_a = 2;
  power_w = 24;
  energy_wh = 1;
  firmware_version = codes "1.0.0";
}

abbrev codec : Loaded ℕ → Codec ℕ
codec l = record { decode_utf8 = λ b. some b; loads = λ _. l; calendar = calendar }

-- what `json.loads` does on nesting that exhausts the stack
abbrev deep_nesting : Loaded ℕ
deep_nesting = escapes

abbrev topic : Text
topic = telemetry_topic (codes "m1")

abbrev parsed : ParsedTopic
parsed = record { device_id = codes "m1"; kind = telemetry }

document_accepted : telemetry_model calendar fl document ≡ good reading
unfolding telemetry_model field lookup list_eq ℕ_discrete validate_boot_id boot_id_ok match_exactly
    check_seq check_sampled_at check_number check_energy check_sensor_status
    validate_firmware_version firmware_version_ok full_match derivative nullable semver forbid_extra
document_accepted = refl

telemetry_model-IsSound_example : IsSound calendar fl document reading
telemetry_model-IsSound_example =
    telemetry_model-IsSound calendar fl document reading document_accepted

validate_message-telemetry_iff_example :
    (validate_message fl settings (codec (object document)) topic (1 ∷ 2 ∷ []) false
      ≡ some (valid_telemetry parsed reading))
    ↔ Accepts fl settings (codec (object document)) topic (1 ∷ 2 ∷ []) parsed reading
validate_message-telemetry_iff_example =
    validate_message-telemetry_iff fl settings (codec (object document)) topic (1 ∷ 2 ∷ []) false
      parsed reading

validate_message-escape_iff_example :
    (validate_message fl settings (codec escapes) topic (1 ∷ 2 ∷ []) false ≡ none) ↔ (
      (is_some (parse_topic topic) ≡ true)
      × (2 ≤ 4)
      × ((text : Text) × (some (1 ∷ 2 ∷ []) ≡ some text) × (deep_nesting ≡ escapes)))
validate_message-escape_iff_example =
    validate_message-escape_iff fl settings (codec escapes) topic (1 ∷ 2 ∷ []) false

validate_message-too_large_example :
    (reason : RejectionReason) × (detail : Detail) × (validate_message fl settings
        (codec escapes)
        topic
        (1 ∷ 2 ∷ 3 ∷ 4 ∷ 5 ∷ [])
        false
      ≡ some (invalid reason detail))
    × (validate_message fl settings (codec (object document)) topic (1 ∷ 2 ∷ 3 ∷ 4 ∷ 5 ∷ []) false
        ≡ some (invalid reason detail))
validate_message-too_large_example =
    validate_message-too_large fl settings (codec escapes) (codec (object document)) topic
      (1 ∷ 2 ∷ 3 ∷ 4 ∷ 5 ∷ []) false (omega arith)
