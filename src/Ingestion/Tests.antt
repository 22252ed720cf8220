-- ===== src/Ingestion/Tests.antt =====
-- The transactions and `handle` over a small storage: one device row and one telemetry row.
use aiot_powerguard.Text.{Text, codes}
use aiot_powerguard.Topics.{telemetry_topic}
use aiot_powerguard.Payload.{sampled_at_datetime}
use aiot_powerguard.Validation.{validate_message}
use aiot_powerguard.Prelude.{
  option_eq, ℕ, ◌+◌, ◌≡◌, refl, true, false, none, some, List, [], ◌∷◌, nat_eq, list_eq, pair_eq,
  ℕ_discrete,
}
use aiot_powerguard.Prelude.Dict.{lookup, insert}
use aiot_powerguard.Status.{record_status}
use aiot_powerguard.Store.{
  insert_anomaly, returns, with_uow, upsert, upsert_from_telemetry, upsert_from_status,
  insert_or_resolve_duplicate, commit, get_row, flush, leave, and_then, committed_by,
}
use aiot_powerguard.Ingestion.{
  stored_telemetry, published_reading, kept_anomaly, persist_anomaly, telemetry_of_payload, Ports,
  Evaluation, positive, nothing, handle, maybe_record_anomaly, persist_telemetry, persist_status,
  note_sequence,
}
use aiot_powerguard.Entities.{DeviceStatus, offline, Telemetry, inserted, rule}
use aiot_powerguard.Store.Commit.{IsCommitted}
use aiot_powerguard.Inference.{ShadowCounters, shadow_evaluate, shadow_is_ready}
use aiot_powerguard.Inference.Shadow.{shadow_all, shadow_all_lem, maybe_record_anomaly-shadow}
use aiot_powerguard.Ingestion.Persist.{persist_telemetry-IsCommitted, persist_status-IsCommitted}
use aiot_powerguard.Ingestion.Matrix.{Matrix, handle-Matrix}
use aiot_powerguard.Ingestion.Sequence.{note_all, highest_of, note_all-highest}
use aiot_powerguard.Ingestion.Fixtures.{
  validated, meter, boot, device, reading, db, publisher, service, fl, settings, codec, message,
  alarm,
}

abbrev ports : Ports ℕ
ports = record { evaluate = λ _. nothing; is_ready = true; now = 6 }

persisted :
    persist_telemetry db (reading none) (codes "1.0.0") (0, device offline)
    ≡ (returns (inserted (reading (some 1))), (1, device DeviceStatus.online))
unfolding persist_telemetry with_uow upsert_from_telemetry upsert get_row flush
    insert_or_resolve_duplicate commit leave and_then committed_by
persisted = refl

persist_telemetry-IsCommitted_example : IsCommitted db (1, device DeviceStatus.online)
persist_telemetry-IsCommitted_example =
    persist_telemetry-IsCommitted db (reading none) (codes "1.0.0") (0, device offline)
      (1, device DeviceStatus.online) (inserted (reading (some 1))) persisted

status_persisted :
    persist_status db meter (codes "1.0.0") boot offline 5 (0, device offline)
    ≡ (returns (device offline), (1, device offline))
unfolding persist_status with_uow upsert_from_status upsert get_row flush commit leave and_then
    committed_by
status_persisted = refl

persist_status-IsCommitted_example : IsCommitted db (1, device offline)
persist_status-IsCommitted_example =
    persist_status-IsCommitted db meter (codes "1.0.0") boot offline 5 (device offline)
      (0, device offline) (1, device offline) status_persisted

handle-Matrix_example :
    Matrix db publisher alarm codec
      (validate_message fl settings codec (telemetry_topic meter) (1 ∷ 2 ∷ []) false)
      5
      service
      (handle db publisher alarm fl settings codec message service)
handle-Matrix_example = handle-Matrix db publisher alarm fl settings codec message service

-- the accepted reading is published, and then its anomaly
alarm_published :
    (handle db publisher alarm fl settings codec message service).0.published
    ≡ codes "anomaly" ∷ codes "telemetry" ∷ []
unfolding handle stored_telemetry maybe_record_anomaly published_reading kept_anomaly note_sequence
    record_status persist_telemetry persist_anomaly with_uow upsert_from_telemetry upsert get_row
    flush insert_or_resolve_duplicate insert_anomaly commit leave and_then committed_by
    telemetry_of_payload sampled_at_datetime
alarm_published = rw validated refl

abbrev readings : List ((Text × Text) × ℕ)
readings = ((meter, boot), 3) ∷ ((meter, boot), 9) ∷ ((meter, boot), 5) ∷ []

note_all-highest_example :
    lookup (meter, boot) (note_all readings service).last_seq
    ≡ highest_of (meter, boot) readings none
unfolding lookup
note_all-highest_example = note_all-highest (meter, boot) readings service

nine_remembered : lookup (meter, boot) (note_all readings service).last_seq ≡ some 9
unfolding note_all note_sequence lookup insert list_eq pair_eq ℕ_discrete
nine_remembered = refl

one_gap : (note_all readings service).counters.sequence_gaps ≡ 1
unfolding note_all note_sequence lookup insert list_eq pair_eq ℕ_discrete
one_gap = refl

abbrev shadow_counters : ShadowCounters
shadow_counters = record { evaluated = 4; would_flag = 1; errors = 0 }

abbrev flagging : Telemetry ℕ → Evaluation ℕ
flagging _ = positive (record { method = rule; reasons = []; score = none; model_version = none })

shadow_all_lem_example :
    ((shadow_all flagging (reading none ∷ []) shadow_counters).evaluated ≡ 4 + 1)
    × ((shadow_all flagging (reading none ∷ []) shadow_counters).would_flag ≡ 1 + 1)
    × ((shadow_all flagging (reading none ∷ []) shadow_counters).errors ≡ 0 + 0)
shadow_all_lem_example = shadow_all_lem flagging (reading none ∷ []) shadow_counters

maybe_record_anomaly-shadow_example :
    maybe_record_anomaly db
      (record {
        evaluate = λ t. (shadow_evaluate flagging t shadow_counters).1;
        is_ready = shadow_is_ready;
        now = 6;
      })
      (reading (some 1))
      service
    ≡ (
      record service { counters = record service.counters { inference_unavailable = 1 } },
      returns none,
    )
maybe_record_anomaly-shadow_example =
    maybe_record_anomaly-shadow db flagging shadow_counters 6 (reading (some 1)) service
