-- ===== src/Ingestion/Fixtures.antt =====
-- A small storage, a publisher, an accepted document and ports that find its reading anomalous.
use aiot_powerguard.Text.{match_exactly, match_up_to, split, Text, codes}
use aiot_powerguard.Text.Regex.{full_match, derivative, nullable}
use aiot_powerguard.Topics.{parse_topic, topic_kind, is_valid_device_id, telemetry, telemetry_topic}
use aiot_powerguard.Payload.{
  telemetry_model, field, validate_boot_id, check_seq, check_sampled_at, check_number, check_energy,
  check_sensor_status, validate_firmware_version, forbid_extra, boot_id_ok, firmware_version_ok,
  semver, Value, int, str, null,
}
use aiot_powerguard.Validation.{
  check_measurement_bounds, check_power_consistency, valid_telemetry, validate_message, object,
  Codec,
}
use aiot_powerguard.Prelude.{
  option_eq, ℕ, ◌≡◌, refl, true, false, none, some, List, [], ◌∷◌, nat_eq, list_eq, pair_eq,
  ℕ_discrete, ◌-◌, ◌*◌, ◌&&◌, leb, ltb, Option,
}
use aiot_powerguard.Prelude.Dict.{lookup, Dict}
use aiot_powerguard.Status.{new_tracker}
use aiot_powerguard.Store.{Database, Answer, value}
use aiot_powerguard.Ingestion.{Ports, positive, Service, EventPublisher}
use aiot_powerguard.Entities.{DeviceStatus, offline, Telemetry, rule, Device, Anomaly}
use aiot_powerguard.Prelude.Int.{ℤ, pos, negsuc}
use aiot_powerguard.Measure.{Floats}
use aiot_powerguard.Settings.{Settings}
use aiot_powerguard.Adapter.State.{InboundMessage}

abbrev pub meter : Text
meter = codes "m1"

abbrev pub boot : Text
boot = codes "deadbeef"

abbrev pub device : DeviceStatus → Device
device s = record {
  id = meter;
  firmware_version = codes "1.0.0";
  status = s;
  first_seen_at = 5;
  last_seen_at = 5;
  last_boot_id = some boot;
}

abbrev pub reading : Option ℕ → Telemetry ℕ
reading id = record {
  id = id;
  device_id = meter;
  boot_id = boot;
  seq = 7;
  received_at = 5;
  voltage_v = 12;
  current_a = 2;
  power_w = 24;
  energy_wh = 1;
  sensor_status = codes "ok";
  sampled_at = none;
}

abbrev pub finding : Anomaly ℕ
finding = record {
  id = some 1;
  telemetry_id = 1;
  device_id = meter;
  detected_at = 6;
  method = rule;
  reasons = codes "sag" ∷ [];
  score = none;
  model_version = none;
}

-- the number of commits, and the device row
abbrev pub Rows : Type 0
Rows = ℕ × Device

abbrev pub fine : {A : Type 0} → A → Rows → Answer A × Rows
fine a s = (value a, s)

abbrev pub db : Database ℕ Rows (Unit {0})
db = record {
  open_session = λ s. s;
  get_device = λ _. fine none;
  add_device = λ d s. (tt, (s.0, d));
  assign_device = λ _ d s. (s.0, d);
  device_of = λ _ s. s.1;
  add_telemetry = λ _ s. (tt, s);
  telemetry_of = λ _ _. reading (some 1);
  add_anomaly = λ _ s. (tt, s);
  anomaly_of = λ _ _. finding;
  flush = fine tt;
  telemetry_id = λ _ _ _. fine (some 1);
  online_before = λ _. fine [];
  set_stale = λ _. fine tt;
  commit = λ s. (value tt, (1, s.1));
  rollback = fine tt;
  close = fine tt;
  lower = λ s. s;
}

abbrev pub publisher : EventPublisher ℕ (List Text)
publisher = record {
  publish_telemetry = λ t p. codes "telemetry" ∷ p;
  publish_anomaly = λ a p. codes "anomaly" ∷ p;
  publish_device_status = λ d p. codes "status" ∷ p;
}

abbrev pub service : Service Rows (List Text)
service = record {
  status = new_tracker;
  counters = record {
    accepted_telemetry = 0;
    duplicate_telemetry = 0;
    accepted_status = 0;
    rejected = 0;
    transient_failures = 0;
    inference_unavailable = 0;
    inference_failures = 0;
    anomalies_detected = 0;
    sequence_gaps = 0;
    rejections_by_reason = [];
  };
  last_seq = [];
  storage = (0, device offline);
  published = [];
}

abbrev pub to_nat : ℤ → ℕ
to_nat (pos n) = n
to_nat (negsuc n) = n

abbrev pub fl : Floats ℕ
fl = record {
  le = leb;
  lt = ltb;
  mul = λ a b. a * b;
  sub = λ a b. a - b;
  abs = λ a. a;
  is_finite = λ _. true;
  of_int = to_nat;
  zero_f = 0;
  power_floor = 1;
}

abbrev pub settings : Settings ℕ
settings = record {
  max_payload_bytes = 4;
  min_voltage_v = 0;
  max_voltage_v = 300;
  max_abs_current_a = 30;
  max_abs_power_w = 9000;
  power_rel_tolerance = 1;
  mqtt_ingress_queue_size = 8;
  ws_max_connections = 2;
  ws_queue_size = 1;
  stale_after = 15;
  mqtt_enabled = true;
}

abbrev pub document : Dict Text (Value ℕ)
document =
    (codes "schema_version", int (pos 1))
    ∷ (codes "boot_id", str boot)
    ∷ (codes "seq", int (pos 7))
    ∷ (codes "sampled_at", null)
    ∷ (codes "voltage_v", int (pos 12))
    ∷ (codes "current_a", int (pos 2))
    ∷ (codes "power_w", int (pos 24))
    ∷ (codes "energy_wh", int (pos 1))
    ∷ (codes "sensor_status", str (codes "ok"))
    ∷ (codes "firmware_version", str (codes "1.0.0"))
    ∷ []

abbrev pub codec : Codec ℕ
codec = record {
  decode_utf8 = λ b. some b;
  loads = λ _. object document;
  calendar = record { decimal = λ c. leb b'0' c && leb c b'9'; strptime = λ _. none };
}

abbrev pub message : InboundMessage
message = record {
  topic = telemetry_topic meter;
  payload = 1 ∷ 2 ∷ [];
  received_at = 5;
  mid = 1;
  qos = 1;
  retained = false;
}

-- ports that find the reading anomalous
abbrev pub alarm : Ports ℕ
alarm = record {
  evaluate = λ _.
      positive
        (record { method = rule; reasons = codes "sag" ∷ []; score = none; model_version = none });
  is_ready = true;
  now = 6;
}

-- the message is an accepted reading
pub validated :
    validate_message fl settings codec (telemetry_topic meter) (1 ∷ 2 ∷ []) false
    ≡ some (
        valid_telemetry
          (record { device_id = meter; kind = telemetry })
          (record {
            boot_id = boot;
            seq = 7;
            sampled_at = none;
            voltage_v = 12;
            current_a = 2;
            power_w = 24;
            energy_wh = 1;
            firmware_version = codes "1.0.0";
          }))
unfolding validate_message parse_topic split topic_kind is_valid_device_id match_up_to
    telemetry_topic check_measurement_bounds check_power_consistency telemetry_model field lookup
    list_eq ℕ_discrete validate_boot_id boot_id_ok match_exactly check_seq check_sampled_at
    check_number check_energy check_sensor_status validate_firmware_version firmware_version_ok
    full_match derivative nullable semver forbid_extra
validated = refl
