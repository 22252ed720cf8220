-- ===== src/Ingestion.antt =====
-- backend/src/powerguard/mqtt/ingestion.py: what happens to one message, from its validation to
-- the acknowledgement. The inference engine, the publisher and the clock are the ports of
-- domain/ports.py.
pub mod Persist
pub mod Rows
pub mod Inferred
pub mod Matrix
pub mod Sequence
pub mod Fixtures
mod Tests
use aiot_powerguard.Prelude.{
  ℕ, ◌+◌, ◌<◌, Bool, true, false, not, ◌&&◌, Option, none, some, List, [], ◌∷◌, ◌==◌, nat_eq,
  list_eq, pair_eq, if◌then◌else◌, ltb, Eq,
}
use aiot_powerguard.Prelude.Dict.{Dict, lookup, insert, get_or}
use aiot_powerguard.Text.{Text, codes}
use aiot_powerguard.Topics.{ParsedTopic}
use aiot_powerguard.Measure.{Floats}
use aiot_powerguard.Settings.{Settings}
use aiot_powerguard.Entities.{
  DeviceStatus, Device, Telemetry, Anomaly, AnomalyVerdict, Stored, inserted, duplicate, online,
  offline,
}
use aiot_powerguard.Payload.{
  TelemetryPayload, ReportedStatus, StatusPayload, Calendar, sampled_at_datetime,
}
use aiot_powerguard.Validation.{
  RejectionReason, topic_invalid, payload_too_large, utf8_invalid, json_invalid, schema_invalid,
  version_unsupported, measurement_out_of_range, power_inconsistent, ValidationResult,
  valid_telemetry, valid_status, invalid, Codec, validate_message,
}
use aiot_powerguard.Status.{Tracker, record_status}
use aiot_powerguard.Adapter.State.{InboundMessage, AckDecision, ack, withhold}
use aiot_powerguard.Store.{
  Database, Outcome, Raised, returns, raises, transient, integrity_error, sql_error, Task, ◌>>=◌,
  ◌>>◌, give, with_uow, upsert_from_telemetry, upsert_from_status, insert_or_resolve_duplicate,
  insert_anomaly, commit,
}

pub record IngestionCounters : Type 0 where
  pub accepted_telemetry : ℕ
  pub duplicate_telemetry : ℕ
  pub accepted_status : ℕ
  pub rejected : ℕ
  pub transient_failures : ℕ
  pub inference_unavailable : ℕ
  pub inference_failures : ℕ
  pub anomalies_detected : ℕ
  pub sequence_gaps : ℕ
  pub rejections_by_reason : Dict Text ℕ

pub data Kind : Type 0 where
  is_rejected is_transient_failure is_duplicate is_accepted is_status : Kind

pub record IngestionResult : Type 0 where
  pub decision : AckDecision
  pub outcome : Kind
  pub telemetry_id : Option ℕ
  pub anomaly_id : Option ℕ
  pub reason : Option RejectionReason

-- what `InferenceEngine.evaluate` comes to, an exception included
pub data Evaluation (F : Type 0) : Type 0 where
  positive : AnomalyVerdict F → Evaluation F
  nothing fails : Evaluation F

-- The ports `InferenceEngine` and `Clock` as one message finds them.
pub record Ports (F : Type 0) : Type 0 where
  pub evaluate : Telemetry F → Evaluation F
  pub is_ready : Bool
  pub now : ℕ

-- the port `EventPublisher`
pub record EventPublisher (F P : Type 0) : Type 0 where
  pub publish_telemetry : Telemetry F → P → P
  pub publish_anomaly : Anomaly F → P → P
  pub publish_device_status : Device → P → P

-- `IngestionService` and what it acts on: the storage and the publisher
pub record Service (S P : Type 0) : Type 0 where
  pub status : Tracker
  pub counters : IngestionCounters
  pub last_seq : Dict (Text × Text) ℕ
  pub storage : S
  pub published : P

pub data Handled : Type 0 where
  done : IngestionResult → Handled
  -- an exception that `handle` does not catch
  escaped : Handled

abbrev reason_value : RejectionReason → Text
reason_value topic_invalid = codes "topic_invalid"
reason_value payload_too_large = codes "payload_too_large"
reason_value utf8_invalid = codes "utf8_invalid"
reason_value json_invalid = codes "json_invalid"
reason_value schema_invalid = codes "schema_invalid"
reason_value version_unsupported = codes "version_unsupported"
reason_value measurement_out_of_range = codes "measurement_out_of_range"
reason_value power_inconsistent = codes "power_inconsistent"

-- `IngestionCounters.reject`
unfoldable pub reject : RejectionReason → IngestionCounters → IngestionCounters
reject reason c = record c {
  rejected = c.rejected + 1;
  rejections_by_reason =
      insert (reason_value reason) (get_or (reason_value reason) 0 c.rejections_by_reason + 1)
        c.rejections_by_reason;
}

abbrev pub bump_gaps : Bool → IngestionCounters → IngestionCounters
bump_gaps gap c = if gap then record c { sequence_gaps = c.sequence_gaps + 1 } else c

-- `previous is not None and seq > previous + 1`
abbrev pub is_gap : Option ℕ → ℕ → Bool
is_gap none seq = false
is_gap (some previous) seq = ltb (previous + 1) seq

-- `previous is None or seq > previous`
abbrev pub is_newer : Option ℕ → ℕ → Bool
is_newer none seq = true
is_newer (some previous) seq = ltb previous seq

module _ {S P : Type 0} where
  -- `_note_sequence`
  unfoldable pub note_sequence : Text × Text → ℕ → Service S P → Service S P
  note_sequence key seq v =
      let previous = lookup key v.last_seq in
      record v {
        counters = bump_gaps (is_gap previous seq) v.counters;
        last_seq = if is_newer previous seq then insert key seq v.last_seq else v.last_seq;
      }

abbrev pub reported : ReportedStatus → DeviceStatus
reported ReportedStatus.online = online
reported ReportedStatus.offline = offline

module _ {F S R : Type 0} (db : Database F S R) where
  unfoldable pub persist_telemetry : Telemetry F → Text → S → Outcome (Stored F) × S
  persist_telemetry t firmware_version = with_uow db (do
    upsert_from_telemetry db t.device_id firmware_version t.boot_id t.received_at
    stored ← insert_or_resolve_duplicate db t
    commit db
    give stored)

  unfoldable pub persist_anomaly : Anomaly F → S → Outcome (Anomaly F) × S
  persist_anomaly a = with_uow db (do stored ← insert_anomaly db a; commit db; give stored)

  unfoldable pub persist_status : Text → Text → Text → DeviceStatus → ℕ → S → Outcome Device × S
  persist_status device_id firmware_version boot_id status seen_at = with_uow db (do
    device ← upsert_from_status db device_id firmware_version boot_id status seen_at
    commit db
    give device)

module _ {F S P : Type 0} where
  -- The end of `_maybe_record_anomaly`, or an exception that it does not catch.
  unfoldable pub kept_anomaly :
      Service S P → Outcome (Anomaly F) × S → Service S P × Outcome (Option (Anomaly F))
  kept_anomaly v (returns a, s) = (
    record v {
      storage = s;
      counters = record v.counters { anomalies_detected = v.counters.anomalies_detected + 1 };
    },
    returns (some a),
  )
  kept_anomaly v (raises transient, s) = (
    record v {
      storage = s;
      counters = record v.counters { transient_failures = v.counters.transient_failures + 1 };
    },
    returns none,
  )
  kept_anomaly v (raises (integrity_error m), s) =
      (record v { storage = s }, raises (integrity_error m))
  kept_anomaly v (raises sql_error, s) = (record v { storage = s }, raises sql_error)

abbrev pub anomaly_id_of : {F : Type 0} → Option (Anomaly F) → Option ℕ
anomaly_id_of none = none
anomaly_id_of (some a) = a.id

module _ {S P : Type 0} where
  -- The `except TransientStorageError` of `handle`.
  abbrev pub failed : Service S P → Raised → Service S P × Handled
  failed v transient = (
    record v {
      counters = record v.counters { transient_failures = v.counters.transient_failures + 1 };
    },
    done (record {
      decision = withhold;
      outcome = is_transient_failure;
      telemetry_id = none;
      anomaly_id = none;
      reason = none;
    }),
  )
  failed v (integrity_error _) = (v, escaped)
  failed v sql_error = (v, escaped)

module _ {F S P : Type 0} where
  -- the service after an insert, before the inference
  abbrev pub accepted : Telemetry F → Service S P → Service S P
  accepted t v =
      let counted = record v.counters { accepted_telemetry = v.counters.accepted_telemetry + 1 } in
      let tracked = (record_status t.device_id online v.status).0 in
      note_sequence (t.device_id, t.boot_id) t.seq
        (record v { counters = counted; status = tracked })

module _ {F S R P : Type 0} (db : Database F S R) (ports : Ports F) where
  verdict_on : Telemetry F → Evaluation F → Service S P → Service S P × Outcome (Option (Anomaly F))
  verdict_on t fails v = (
    record v {
      counters = record v.counters { inference_failures = v.counters.inference_failures + 1 };
    },
    returns none,
  )
  verdict_on t nothing v = if ports.is_ready then (v, returns none) else (
    record v {
      counters = record v.counters { inference_unavailable = v.counters.inference_unavailable + 1 };
    },
    returns none,
  )
  verdict_on t (positive verdict) v = elim (t.id) [
    | none ↦ (v, returns none)
    | some id ↦
        let candidate : Anomaly F = record {
          id = none;
          telemetry_id = id;
          device_id = t.device_id;
          detected_at = ports.now;
          method = verdict.method;
          reasons = verdict.reasons;
          score = verdict.score;
          model_version = verdict.model_version;
        } in
        kept_anomaly v (persist_anomaly db candidate v.storage)
  ]

  unfoldable pub maybe_record_anomaly :
      Telemetry F → Service S P → Service S P × Outcome (Option (Anomaly F))
  unfolding verdict_on
  maybe_record_anomaly t v = verdict_on t (ports.evaluate t) v

module _ {F P : Type 0} (publisher : EventPublisher F P) where
  open publisher use {publish_telemetry, publish_anomaly}

  -- the publications of an accepted reading, the telemetry first
  abbrev pub publish_reading : Telemetry F → Option (Anomaly F) → P → P
  publish_reading t none p = publish_telemetry t p
  publish_reading t (some a) p = publish_anomaly a (publish_telemetry t p)

module _ {F S P : Type 0} (publisher : EventPublisher F P) where
  open publisher use {publish_device_status}

  unfoldable pub published_reading :
      Telemetry F → Service S P × Outcome (Option (Anomaly F)) → Service S P × Handled
  published_reading t (v, returns anomaly) = (
    record v { published = publish_reading publisher t anomaly v.published },
    done (record {
      decision = ack;
      outcome = is_accepted;
      telemetry_id = t.id;
      anomaly_id = anomaly_id_of anomaly;
      reason = none;
    }),
  )
  published_reading t (v, raises e) = failed v e

  unfoldable pub stored_status : Service S P → Outcome Device × S → Service S P × Handled
  stored_status v (returns device, s) = (
    record v {
      storage = s;
      counters = record v.counters { accepted_status = v.counters.accepted_status + 1 };
      status = (record_status device.id device.status v.status).0;
      published = publish_device_status device v.published;
    },
    done (record {
      decision = ack;
      outcome = is_status;
      telemetry_id = none;
      anomaly_id = none;
      reason = none;
    }),
  )
  stored_status v (raises e, s) = failed (record v { storage = s }) e

-- the `Telemetry` that `_handle_telemetry` builds
unfoldable pub telemetry_of_payload :
    {F : Type 0} → Text → TelemetryPayload F → ℕ → Option ℕ → Telemetry F
telemetry_of_payload device_id p received_at sampled_at = record {
  id = none;
  device_id = device_id;
  boot_id = p.boot_id;
  seq = p.seq;
  received_at = received_at;
  voltage_v = p.voltage_v;
  current_a = p.current_a;
  power_w = p.power_w;
  energy_wh = p.energy_wh;
  sensor_status = codes "ok";
  sampled_at = sampled_at;
}

module _ {F S R P : Type 0} (db : Database F S R) (publisher : EventPublisher F P)
    (ports : Ports F) where
  unfoldable pub stored_telemetry : Service S P → Outcome (Stored F) × S → Service S P × Handled
  stored_telemetry v (returns (inserted t), s) =
      published_reading publisher t
        (maybe_record_anomaly db ports t (accepted t (record v { storage = s })))
  stored_telemetry v (returns (duplicate i), s) = (
    record v {
      storage = s;
      counters = record v.counters { duplicate_telemetry = v.counters.duplicate_telemetry + 1 };
    },
    done (record {
      decision = ack;
      outcome = is_duplicate;
      telemetry_id = some i;
      anomaly_id = none;
      reason = none;
    }),
  )
  stored_telemetry v (raises e, s) = failed (record v { storage = s }) e

  module _ (fl : Floats F) (settings : Settings F) (codec : Codec F) where
    handle_result : ℕ → Option (ValidationResult F) → Service S P → Service S P × Handled
    unfolding reject stored_telemetry stored_status telemetry_of_payload
    handle_result received_at none v = (v, escaped)
    handle_result received_at (some (invalid reason _)) v = (
      record v { counters = reject reason v.counters },
      done (record {
        decision = ack;
        outcome = is_rejected;
        telemetry_id = none;
        anomaly_id = none;
        reason = some reason;
      }),
    )
    handle_result received_at (some (valid_telemetry topic p)) v =
        elim (sampled_at_datetime codec.calendar p.sampled_at) [
          | none ↦ (v, escaped)
          | some sampled_at ↦
              let t = telemetry_of_payload topic.device_id p received_at sampled_at in
              stored_telemetry v (persist_telemetry db t p.firmware_version v.storage)
        ]
    handle_result received_at (some (valid_status topic p retained)) v = stored_status publisher v (
        persist_status db topic.device_id p.firmware_version p.boot_id (reported p.status)
          received_at v.storage)

    -- `handle`
    unfoldable pub handle : InboundMessage → Service S P → Service S P × Handled
    unfolding handle_result
    handle m v =
        handle_result m.received_at
          (validate_message fl settings codec m.topic m.payload m.retained) v
