-- ===== src/Bootstrap/Tests.antt =====
-- The wired process at concrete inputs.
use aiot_powerguard.Prelude.{
  pair_eq, arith, false, ℕ, ◌+◌, ◌≡◌, refl, none, some, List, [], ◌∷◌, if◌then◌else◌, any_of, ◌==◌,
  list_eq, nat_eq, option_eq, ℕ_discrete, inr,
}
use aiot_powerguard.Payload.{sampled_at_datetime}
use aiot_powerguard.Hub.{
  telemetry_event, anomaly_event, dispatch, deliver, deliver_all, Hub, subscribe, connection_count,
}
use aiot_powerguard.Store.{
  with_uow, upsert, upsert_from_telemetry, insert_or_resolve_duplicate, commit, get_row, flush,
  leave, and_then, committed_by, insert_anomaly,
}
use aiot_powerguard.Ingestion.{
  stored_telemetry, published_reading, kept_anomaly, persist_anomaly, telemetry_of_payload,
  persist_telemetry, maybe_record_anomaly, note_sequence, Service, handle,
}
use aiot_powerguard.Ingestion.Fixtures.{
  reading, finding, validated, meter, Rows, db, alarm, fl, settings, codec, message, service,
}
use aiot_powerguard.Prelude.Dict.{lookup, insert}
use aiot_powerguard.Text.{Text, codes}
use aiot_powerguard.Entities.{stale, Device, status_eq}
use aiot_powerguard.Status.{new_tracker, current, record_status}
use aiot_powerguard.Bootstrap.{Container, announce, announce_all, hub_publisher}
use aiot_powerguard.Bootstrap.Scan.{announce_all_lem}
use aiot_powerguard.Hub.Accounts.{IsValid, subscribe-IsValid}
use aiot_powerguard.Hub.Room.{HasRoom}
use aiot_powerguard.Validation.{validate_message}
use aiot_powerguard.Bootstrap.Feed.{Hears, handle-Hears}

abbrev silent : Device
silent = record {
  id = meter;
  firmware_version = codes "1.0.0";
  status = stale;
  first_seen_at = 5;
  last_seen_at = 5;
  last_boot_id = none;
}

abbrev container : Container ℕ (List Text)
container = record {
  counters = record { scans = 0; transitions = 0; failures = 0 };
  tracker = new_tracker;
  storage = 0;
  published = [];
}

abbrev note : Device → List Text → List Text
note d p = d.id ∷ p

announce_all_lem_example :
    ((announce_all note (silent ∷ []) container).counters.transitions + 0
      ≡ 0 + (announce_all note (silent ∷ []) container).tracker.counters.status_transitions)
    × (current meter (announce_all note (silent ∷ []) container).tracker ≡ (
        if any_of (λ d. meter == d.id) (silent ∷ [])
        then some stale
        else current meter new_tracker))
announce_all_lem_example = announce_all_lem note (silent ∷ []) container meter

announced_once : (announce_all note (silent ∷ silent ∷ []) container).published ≡ meter ∷ []
unfolding announce_all announce record_status lookup insert list_eq option_eq status_eq ℕ_discrete
announced_once = refl

abbrev after_one : Container ℕ (List Text)
after_one = announce note silent container

remembered_stale : current meter after_one.tracker ≡ some stale
unfolding current announce record_status lookup insert list_eq option_eq status_eq ℕ_discrete
remembered_stale = refl

abbrev empty_hub : Hub ℕ
empty_hub = record {
  max_connections = 2;
  queue_size = 4;
  counters = record {
    opened = 0;
    closed = 0;
    rejected = 0;
    slow_clients_dropped = 0;
    events_published = 0;
    events_delivered = 0;
  };
  subscriptions = [];
  objects = λ _. record { device_id = []; queue = []; dropped = false; closed = false };
  fresh = 0;
}

empty_hub-IsValid : IsValid empty_hub
unfolding connection_count
empty_hub-IsValid = record { registry = tt; numbered = tt; counted = refl; capped = omega arith }

-- a client of the device of the message
abbrev one_client : Hub ℕ
one_client = (subscribe meter empty_hub).0

one_client-IsValid : IsValid one_client
one_client-IsValid = subscribe-IsValid meter empty_hub empty_hub-IsValid

one_client-HasRoom : HasRoom one_client 0
unfolding subscribe connection_count ℕ_discrete
one_client-HasRoom = inr (omega arith)

abbrev fed : Service Rows (Hub ℕ)
fed = record {
  status = service.status;
  counters = service.counters;
  last_seq = service.last_seq;
  storage = service.storage;
  published = one_client;
}

handle-Hears_example :
    Hears db 6 alarm codec
      (validate_message fl settings codec message.topic (1 ∷ 2 ∷ []) false)
      5
      0
      fed
      (handle db (hub_publisher 6) alarm fl settings codec message fed)
handle-Hears_example =
    handle-Hears db 6 alarm fl settings codec message fed 0 one_client-IsValid one_client-HasRoom

-- the client hears of the reading, and then of its anomaly
client_hears :
    ((handle db (hub_publisher 6) alarm fl settings codec message fed).0.published.objects 0).queue
    ≡ telemetry_event (reading (some 1)) 6 ∷ anomaly_event finding 6 ∷ []
unfolding handle stored_telemetry maybe_record_anomaly published_reading kept_anomaly note_sequence
    record_status persist_telemetry persist_anomaly with_uow upsert_from_telemetry upsert get_row
    flush insert_or_resolve_duplicate insert_anomaly commit leave and_then committed_by
    telemetry_of_payload sampled_at_datetime connection_count telemetry_event anomaly_event dispatch
    deliver deliver_all subscribe lookup insert list_eq ℕ_discrete
client_hears = rw validated refl
