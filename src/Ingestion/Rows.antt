-- ===== src/Ingestion/Rows.antt =====
-- What each outcome of `handle` stands for, in terms of the message: the reading that a valid payload
-- describes, the anomaly that a verdict describes, and the rows of the outcome matrix.
use aiot_powerguard.Prelude.{ℕ, ◌≡◌, Bool, Option, none, some, ◌⊎◌}
use aiot_powerguard.Text.{codes}
use aiot_powerguard.Topics.{ParsedTopic}
use aiot_powerguard.Entities.{Device, Telemetry, Anomaly, AnomalyVerdict, inserted, duplicate}
use aiot_powerguard.Payload.{TelemetryPayload, StatusPayload, sampled_at_datetime}
use aiot_powerguard.Validation.{
  ValidationResult, valid_telemetry, valid_status, invalid, Codec, RejectionReason, Detail,
}
use aiot_powerguard.Store.{Database, Outcome, returns, raises, transient}
use aiot_powerguard.Store.Commit.{IsCommitted}
use aiot_powerguard.Ingestion.{
  IngestionResult, Kind, is_rejected, is_transient_failure, is_duplicate, is_accepted, is_status,
  positive, Ports, EventPublisher, Service, reported, persist_telemetry, persist_anomaly,
  persist_status,
}

-- A valid reading and the row that it describes, field by field.
pub record Reading {F : Type 0} (codec : Codec F) (c : Option (ValidationResult F))
    (received_at : ℕ) : Type 0 where
  pub topic : ParsedTopic
  pub payload : TelemetryPayload F
  pub sampled_at : Option ℕ
  pub row : Telemetry F
  pub valid : c ≡ some (valid_telemetry topic payload)
  pub sampled : sampled_at_datetime codec.calendar payload.sampled_at ≡ some sampled_at
  pub id_ok : row.id ≡ none
  pub device_ok : row.device_id ≡ topic.device_id
  pub boot_ok : row.boot_id ≡ payload.boot_id
  pub seq_ok : row.seq ≡ payload.seq
  pub received_ok : row.received_at ≡ received_at
  pub voltage_ok : row.voltage_v ≡ payload.voltage_v
  pub current_ok : row.current_a ≡ payload.current_a
  pub power_ok : row.power_w ≡ payload.power_w
  pub energy_ok : row.energy_wh ≡ payload.energy_wh
  pub sensor_ok : row.sensor_status ≡ codes "ok"
  pub sampled_ok : row.sampled_at ≡ sampled_at

-- A verdict on a stored reading and the anomaly that it describes, field by field.
pub record Verdict {F : Type 0} (ports : Ports F) (t : Telemetry F) : Type 0 where
  pub verdict : AnomalyVerdict F
  pub telemetry_id : ℕ
  pub row : Anomaly F
  pub found : ports.evaluate t ≡ positive verdict
  pub stored : t.id ≡ some telemetry_id
  pub id_ok : row.id ≡ none
  pub telemetry_ok : row.telemetry_id ≡ telemetry_id
  pub device_ok : row.device_id ≡ t.device_id
  pub detected_ok : row.detected_at ≡ ports.now
  pub method_ok : row.method ≡ verdict.method
  pub reasons_ok : row.reasons ≡ verdict.reasons
  pub score_ok : row.score ≡ verdict.score
  pub model_ok : row.model_version ≡ verdict.model_version

module _ {F S R : Type 0} (db : Database F S R) (ports : Ports F) where
  -- From the storage `s` to `s'`: the anomaly was stored by a committed transaction; or there is
  -- none to store and the storage is as it was; or the transaction failed.
  abbrev pub Judged : Telemetry F → Option (Anomaly F) → S → S → Type 0
  Judged t (some a) s s' =
      (x : Verdict ports t) × (persist_anomaly db x.row s ≡ (returns a, s')) × IsCommitted db s'
  Judged t none s s' =
      (((verdict : AnomalyVerdict F) → ports.evaluate t ≡ positive verdict → t.id ≡ none)
        × (s' ≡ s))
      ⊎ ((x : Verdict ports t) × (persist_anomaly db x.row s ≡ (raises transient, s')))

module _ {F S R P : Type 0} (db : Database F S R) (publisher : EventPublisher F P) (ports : Ports F)
    (codec : Codec F) (c : Option (ValidationResult F)) (received_at : ℕ) where
  open publisher use {publish_telemetry, publish_anomaly, publish_device_status}

  -- the telemetry first, then its anomaly
  abbrev pub Published : Telemetry F → Option (Anomaly F) → P → P → Type 0
  Published t none p p' = p' ≡ publish_telemetry t p
  Published t (some a) p p' = p' ≡ publish_anomaly a (publish_telemetry t p)

  abbrev pub Identified : Option (Anomaly F) → Option ℕ → Type 0
  Identified none id = id ≡ none
  Identified (some a) id = id ≡ a.id

  -- An inserted reading: `between` is the storage after its own transaction.
  pub record Accepted (v v' : Service S P) (r : IngestionResult) : Type 0 where
    pub reading : Reading codec c received_at
    pub stored : Telemetry F
    pub between : S
    pub anomaly : Option (Anomaly F)
    pub inserted_ok :
        persist_telemetry db reading.row reading.payload.firmware_version v.storage
        ≡ (returns (inserted stored), between)
    pub durable : IsCommitted db between
    pub judged : Judged db ports stored anomaly between v'.storage
    pub published_ok : Published stored anomaly v.published v'.published
    pub telemetry_ok : r.telemetry_id ≡ stored.id
    pub anomaly_ok : Identified anomaly r.anomaly_id

  -- A reading whose sequence number was stored before.
  pub record Repeated (v v' : Service S P) (r : IngestionResult) : Type 0 where
    pub reading : Reading codec c received_at
    pub first_id : ℕ
    pub duplicate_ok :
        persist_telemetry db reading.row reading.payload.firmware_version v.storage
        ≡ (returns (duplicate first_id), v'.storage)
    pub durable : IsCommitted db v'.storage
    pub published_ok : v'.published ≡ v.published
    pub telemetry_ok : r.telemetry_id ≡ some first_id

  -- A valid status message.
  pub record Reported : Type 0 where
    pub topic : ParsedTopic
    pub payload : StatusPayload
    pub retained : Bool
    pub valid : c ≡ some (valid_status topic payload retained)

  abbrev pub persisted_status : Reported → S → Outcome Device × S
  persisted_status x =
      persist_status db x.topic.device_id x.payload.firmware_version x.payload.boot_id
        (reported x.payload.status) received_at

  -- The transaction of the reading, or of the status, raised a transient error.
  abbrev pub Failed : Service S P → Service S P → Type 0
  Failed v v' =
      ((x : Reading codec c received_at) × (persist_telemetry db x.row x.payload.firmware_version
            v.storage
          ≡ (raises transient, v'.storage)))
      ⊎ ((x : Reported) × (persisted_status x v.storage ≡ (raises transient, v'.storage)))

  abbrev pub Row : Service S P → Service S P → IngestionResult → Kind → Type 0
  Row v v' r is_rejected =
      (reason : RejectionReason) × (detail : Detail) × (c ≡ some (invalid reason detail))
      × (r.reason ≡ some reason)
      × (v'.storage ≡ v.storage)
      × (v'.published ≡ v.published)
  Row v v' r is_transient_failure = Failed v v' × (v'.published ≡ v.published)
  Row v v' r is_duplicate = Repeated v v' r
  Row v v' r is_accepted = Accepted v v' r
  Row v v' r is_status =
      (x : Reported) × (device : Device) × (persisted_status x v.storage
        ≡ (returns device, v'.storage))
      × IsCommitted db v'.storage
      × (v'.published ≡ publish_device_status device v.published)
