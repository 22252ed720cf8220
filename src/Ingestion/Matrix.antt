-- ===== src/Ingestion/Matrix.antt =====
-- The outcome matrix of `handle`: persistence, publication and acknowledgement of each outcome.
use aiot_powerguard.Prelude.{
  ℕ, ◌+◌, ◌≡◌, refl, Option, none, some, arith, Option-cases, inl, inr, ◌∙◌, ap, subst,
}
use aiot_powerguard.Measure.{Floats}
use aiot_powerguard.Settings.{Settings}
use aiot_powerguard.Entities.{Device, Telemetry, Anomaly, Stored, inserted, duplicate}
use aiot_powerguard.Topics.{ParsedTopic}
use aiot_powerguard.Payload.{TelemetryPayload, sampled_at_datetime}
use aiot_powerguard.Ingestion.Rows.{
  Reading, Judged, Published, Identified, Reported, persisted_status, Failed, Row,
}
use aiot_powerguard.Validation.{
  ValidationResult, valid_telemetry, valid_status, invalid, Codec, validate_message,
}
use aiot_powerguard.Adapter.State.{InboundMessage, AckDecision, ack, withhold}
use aiot_powerguard.Store.{
  Database, Outcome, Raised, returns, raises, transient, integrity_error, sql_error,
}
use aiot_powerguard.Ingestion.{
  Kind, is_rejected, is_transient_failure, is_duplicate, is_accepted, is_status, Ports,
  EventPublisher, Service, Handled, done, escaped, reject, note_sequence, reported,
  persist_telemetry, publish_reading, failed, anomaly_id_of, telemetry_of_payload,
  published_reading, accepted, stored_telemetry, stored_status, handle_result, handle,
}
use aiot_powerguard.Ingestion.Persist.{persist_telemetry-IsCommitted, persist_status-IsCommitted}
use aiot_powerguard.Ingestion.Inferred.{acks, MaybeOk, maybe_record_anomaly-MaybeOk}

abbrev pub decision_of : Kind → AckDecision
decision_of is_rejected = ack
decision_of is_transient_failure = withhold
decision_of is_duplicate = ack
decision_of is_accepted = ack
decision_of is_status = ack

abbrev pub acks_of : Kind → ℕ
acks_of is_rejected = 1
acks_of is_transient_failure = 0
acks_of is_duplicate = 1
acks_of is_accepted = 1
acks_of is_status = 1

module _ {F S R P : Type 0} (db : Database F S R) (publisher : EventPublisher F P) (ports : Ports F)
    (codec : Codec F) (c : Option (ValidationResult F)) (received_at : ℕ) where
  publish_reading-Published :
      (t : Telemetry F) (o : Option (Anomaly F)) {p q : P}
      → p ≡ q
      → Published db publisher ports codec c received_at t o q (publish_reading publisher t o p)
  publish_reading-Published t none h = ap (publish_reading publisher t none) h
  publish_reading-Published t (some a) h = ap (publish_reading publisher t (some a)) h

  identified :
      (o : Option (Anomaly F))
      → Identified db publisher ports codec c received_at o (anomaly_id_of o)
  identified none = refl
  identified (some a) = refl

reading_of :
    {F : Type 0} (codec : Codec F) (topic : ParsedTopic) (p : TelemetryPayload F) (received_at : ℕ)
    (sampled : Option ℕ)
    → sampled_at_datetime codec.calendar p.sampled_at ≡ some sampled
    → Reading codec (some (valid_telemetry topic p)) received_at
unfolding telemetry_of_payload
reading_of codec topic p received_at sampled e = record {
  topic = topic;
  payload = p;
  sampled_at = sampled;
  row = telemetry_of_payload topic.device_id p received_at sampled;
  valid = refl;
  sampled = e;
  id_ok = refl;
  device_ok = refl;
  boot_ok = refl;
  seq_ok = refl;
  received_ok = refl;
  voltage_ok = refl;
  current_ok = refl;
  power_ok = refl;
  energy_ok = refl;
  sensor_ok = refl;
  sampled_ok = refl;
}

module _ {F S R P : Type 0} (db : Database F S R) (publisher : EventPublisher F P) (ports : Ports F)
    (codec : Codec F) (c : Option (ValidationResult F)) (received_at : ℕ) where
  abbrev pub Matrix : Service S P → Service S P × Handled → Type 0
  Matrix v (v', escaped) = v'.published ≡ v.published
  Matrix v (v', done r) =
      Row db publisher ports codec c received_at v v' r r.outcome
      × (r.decision ≡ decision_of r.outcome)
      × (acks v'.counters ≡ acks v.counters + acks_of r.outcome)

  failed-Matrix :
      (v w : Service S P) (e : Raised)
      → (e ≡ transient → Failed db publisher ports codec c received_at v w)
      → w.published ≡ v.published
      → acks w.counters ≡ acks v.counters
      → Matrix v (failed w e)
  failed-Matrix v w transient h p a = ((h refl, p), refl, omega (arith, a))
  failed-Matrix v w (integrity_error _) h p a = p
  failed-Matrix v w sql_error h p a = p

  stored_status-Matrix :
      (v : Service S P) (x : Reported db publisher ports codec c received_at)
      (p : Outcome Device × S)
      → persisted_status db publisher ports codec c received_at x v.storage ≡ p
      → Matrix v (stored_status publisher v p)
  unfolding stored_status
  stored_status-Matrix v x (returns device, s) h =
      let kept =
        persist_status-IsCommitted db x.topic.device_id x.payload.firmware_version x.payload.boot_id
          (reported x.payload.status) received_at device v.storage s h in
      ((x, device, h, kept, refl), refl, omega arith)
  stored_status-Matrix v x (raises e, s) h =
      failed-Matrix v (record v { storage = s }) e (λ k. inr (x, h ∙ ap (λ w. (raises w, s)) k))
        refl refl

module _ {F S R P : Type 0} (db : Database F S R) (publisher : EventPublisher F P) (ports : Ports F)
    (codec : Codec F) (c : Option (ValidationResult F)) (received_at : ℕ)
    (x : Reading codec c received_at) where
  published_reading-Matrix :
      (t : Telemetry F) (s : S) (v w : Service S P) (p : Service S P × Outcome (Option (Anomaly F)))
      → persist_telemetry db x.row x.payload.firmware_version v.storage ≡ (returns (inserted t), s)
      → (w.published ≡ v.published) × (acks w.counters ≡ acks v.counters + 1) × (w.storage ≡ s)
      → MaybeOk db ports t w p
      → Matrix db publisher ports codec c received_at v (published_reading publisher t p)
  unfolding published_reading
  published_reading-Matrix t s v w (y, returns o) stored (b, k, at) (pub_ok, acks_ok, judged) = (
    record {
      reading = x;
      stored = t;
      between = s;
      anomaly = o;
      inserted_ok = stored;
      durable =
          persist_telemetry-IsCommitted db x.row x.payload.firmware_version v.storage s (inserted t)
            stored;
      judged = subst (λ z. Judged db ports t o z y.storage) at judged;
      published_ok =
          publish_reading-Published db publisher ports codec c received_at t o (pub_ok ∙ b);
      telemetry_ok = refl;
      anomaly_ok = identified db publisher ports codec c received_at o;
    },
    refl,
    omega (arith, k, acks_ok),
  )
  published_reading-Matrix t s v w (y, raises transient) stored same m = absurd m
  published_reading-Matrix t s v w (y, raises (integrity_error _)) stored same m = m ∙ same.0
  published_reading-Matrix t s v w (y, raises sql_error) stored same m = m ∙ same.0

  accepted_same :
      (t : Telemetry F) (s : S) (v : Service S P)
      → let w = accepted t (record v { storage = s }) in
        (w.published ≡ v.published) × (acks w.counters ≡ acks v.counters + 1) × (w.storage ≡ s)
  unfolding note_sequence
  accepted_same t s v = ground arith

  stored_telemetry-Matrix :
      (v : Service S P) (p : Outcome (Stored F) × S)
      → persist_telemetry db x.row x.payload.firmware_version v.storage ≡ p
      → Matrix db publisher ports codec c received_at v (stored_telemetry db publisher ports v p)
  unfolding stored_telemetry
  stored_telemetry-Matrix v (returns (inserted t), s) h =
      let w = accepted t (record v { storage = s }) in
      published_reading-Matrix t s v w _ h (accepted_same t s v)
        (maybe_record_anomaly-MaybeOk db ports t w)
  stored_telemetry-Matrix v (returns (duplicate i), s) h = (
    record {
      reading = x;
      first_id = i;
      duplicate_ok = h;
      durable =
          persist_telemetry-IsCommitted db x.row x.payload.firmware_version v.storage s
            (duplicate i) h;
      published_ok = refl;
      telemetry_ok = refl;
    },
    refl,
    omega arith,
  )
  stored_telemetry-Matrix v (raises e, s) h =
      failed-Matrix db publisher ports codec c received_at v (record v { storage = s }) e
        (λ k. inl (x, h ∙ ap (λ w. (raises w, s)) k)) refl refl

module _ {F S R P : Type 0} (db : Database F S R) (publisher : EventPublisher F P) (ports : Ports F)
    (fl : Floats F) (settings : Settings F) (codec : Codec F) where
  handle_result-Matrix :
      (received_at : ℕ) (c : Option (ValidationResult F)) (v : Service S P)
      → Matrix db publisher ports codec c received_at v
          (handle_result db publisher ports fl settings codec received_at c v)
  unfolding handle_result reject reading_of
  handle_result-Matrix received_at none v = refl
  handle_result-Matrix received_at (some (invalid reason detail)) v =
      ((reason, detail, refl, refl, refl, refl), refl, omega arith)
  handle_result-Matrix received_at (some (valid_telemetry topic p)) v =
      elim (Option-cases (sampled_at_datetime codec.calendar p.sampled_at)) [
        | inl e ↦ rw (e, handle_result) refl
        | inr (sampled, e) ↦
            rw (e, handle_result)
              (stored_telemetry-Matrix db publisher ports codec (some (valid_telemetry topic p))
                received_at (reading_of codec topic p received_at sampled e) v _ refl)
      ]
  handle_result-Matrix received_at (some (valid_status topic p retained)) v =
      let c = some (valid_status topic p retained) in
      let x : Reported db publisher ports codec c received_at = record {
        topic = topic;
        payload = p;
        retained = retained;
        valid = refl;
      } in
      stored_status-Matrix db publisher ports codec c received_at v x _ refl

  -- What `handle` does with a message, by the outcome that it returns. A rejected message failed
  -- its validation with the reason that is returned, and touches neither the storage nor the
  -- publisher. An accepted reading is the row that the valid payload describes, field by field,
  -- inserted by a committed transaction; if the inference finds an anomaly and the stored reading
  -- has an id, the row that the verdict describes is stored by a second committed transaction, or
  -- that transaction failed and there is no anomaly; without one the storage is left as it was.
  -- The stored reading is published, and after it the stored anomaly, if there is one. Their ids
  -- are returned. A duplicate is such a reading that a committed transaction found stored, with
  -- the id that is returned, and publishes nothing. An accepted status is stored by a committed
  -- transaction with the fields of the payload, and the device that comes out is published. A
  -- transient failure is one of the reading's or the status's transaction and publishes nothing.
  -- It alone is withheld, all else is acknowledged, and the counters of acknowledged outcomes grow
  -- by one exactly on an acknowledgement. If an exception escapes, nothing was published.
  pub handle-Matrix :
      (m : InboundMessage) (v : Service S P)
      → Matrix db publisher ports codec
          (validate_message fl settings codec m.topic m.payload m.retained)
          m.received_at
          v
          (handle db publisher ports fl settings codec m v)
  unfolding handle
  handle-Matrix m v =
      handle_result-Matrix m.received_at
        (validate_message fl settings codec m.topic m.payload m.retained) v
