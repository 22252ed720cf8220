-- ===== src/Bootstrap/Feed.antt =====
-- What a WebSocket client hears of a message: the ingestion with the hub as its publisher.
use aiot_powerguard.Prelude.{ℕ, ◌≡◌, ap, ◌∙◌, Option, none, some, List, [], ◌∷◌, ◌++◌}
use aiot_powerguard.Measure.{Floats}
use aiot_powerguard.Settings.{Settings}
use aiot_powerguard.Entities.{Device, Telemetry, Anomaly}
use aiot_powerguard.Validation.{ValidationResult, Codec, validate_message}
use aiot_powerguard.Adapter.State.{InboundMessage}
use aiot_powerguard.Store.{Database, returns}
use aiot_powerguard.Hub.{Event, Hub, telemetry_event, anomaly_event, status_event}
use aiot_powerguard.Hub.Accounts.{IsValid}
use aiot_powerguard.Hub.Room.{heard, HasRoom, room_now, dispatch-queue, dispatch-dispatch_queue}
use aiot_powerguard.Ingestion.{
  IngestionResult, Kind, is_rejected, is_transient_failure, is_duplicate, is_accepted, is_status,
  Ports, Service, Handled, done, escaped, handle,
}
use aiot_powerguard.Ingestion.Rows.{Accepted, Reported, persisted_status, Published, Row}
use aiot_powerguard.Ingestion.Matrix.{Matrix, handle-Matrix}
use aiot_powerguard.Bootstrap.{hub_publisher}

-- the events of a reading: its own, and then that of its anomaly
abbrev pub reading_events : {F : Type 0} → ℕ → Telemetry F → Option (Anomaly F) → List (Event F)
reading_events now t none = telemetry_event t now ∷ []
reading_events now t (some a) = telemetry_event t now ∷ anomaly_event a now ∷ []

module _ {F S R : Type 0} (db : Database F S R) (now : ℕ) (ports : Ports F) (codec : Codec F)
    (c : Option (ValidationResult F)) (received_at : ℕ) (j : ℕ) where
  abbrev queue_of : Service S (Hub F) → List (Event F)
  queue_of v = (v.published.objects j).queue

  abbrev Adds : Service S (Hub F) → Service S (Hub F) → List (Event F) → Type 0
  Adds v v' es = queue_of v' ≡ queue_of v ++ heard v.published j es

  -- what the queue gains, by the outcome
  abbrev pub Gains : Service S (Hub F) → Service S (Hub F) → IngestionResult → Kind → Type 0
  Gains v v' r is_accepted =
      (x : Accepted db (hub_publisher now) ports codec c received_at v v' r) × Adds v v'
        (reading_events now x.stored x.anomaly)
  Gains v v' r is_status =
      (x : Reported db (hub_publisher now) ports codec c received_at) × (device : Device)
      × (persisted_status db (hub_publisher now) ports codec c received_at x v.storage
          ≡ (returns device, v'.storage))
      × Adds v v' (status_event device now ∷ [])
  Gains v v' r is_rejected = queue_of v' ≡ queue_of v
  Gains v v' r is_transient_failure = queue_of v' ≡ queue_of v
  Gains v v' r is_duplicate = queue_of v' ≡ queue_of v

  abbrev pub Hears : Service S (Hub F) → Service S (Hub F) × Handled → Type 0
  Hears v (v', escaped) = queue_of v' ≡ queue_of v
  Hears v (v', done r) = Gains v v' r r.outcome

  published-Adds :
      (v v' : Service S (Hub F)) (t : Telemetry F) (o : Option (Anomaly F))
      → IsValid v.published
      → HasRoom v.published j
      → Published db (hub_publisher now) ports codec c received_at t o v.published v'.published
      → Adds v v' (reading_events now t o)
  published-Adds v v' t none valid room h =
      ap (λ g. (g.objects j).queue) h
      ∙ dispatch-queue (telemetry_event t now) v.published j valid (room_now v.published j room)
  published-Adds v v' t (some a) valid room h =
      ap (λ g. (g.objects j).queue) h
      ∙ dispatch-dispatch_queue (telemetry_event t now) (anomaly_event a now) v.published j valid
          room

  Row-Gains :
      (v v' : Service S (Hub F)) (r : IngestionResult) (k : Kind)
      → IsValid v.published
      → HasRoom v.published j
      → Row db (hub_publisher now) ports codec c received_at v v' r k
      → Gains v v' r k
  Row-Gains v v' r is_accepted valid room x =
      (x, published-Adds v v' x.stored x.anomaly valid room x.published_ok)
  Row-Gains v v' r is_status valid room (x, device, stored, kept, p) = (
    x,
    device,
    stored,
    ap (λ g. (g.objects j).queue) p
        ∙ dispatch-queue (status_event device now) v.published j valid
            (room_now v.published j room),
  )
  Row-Gains v v' r is_rejected valid room (_, _, _, _, _, p) = ap (λ g. (g.objects j).queue) p
  Row-Gains v v' r is_transient_failure valid room (f, p) = ap (λ g. (g.objects j).queue) p
  Row-Gains v v' r is_duplicate valid room x = ap (λ g. (g.objects j).queue) x.published_ok

  Matrix-Hears :
      (v : Service S (Hub F)) (w : Service S (Hub F) × Handled)
      → IsValid v.published
      → HasRoom v.published j
      → Matrix db (hub_publisher now) ports codec c received_at v w
      → Hears v w
  Matrix-Hears v (v', escaped) valid room p = ap (λ g. (g.objects j).queue) p
  Matrix-Hears v (v', done r) valid room m = Row-Gains v v' r r.outcome valid room m.0

-- In a hub whose registry and counters are in order (`IsValid`), a client whose queue is without a
-- limit or takes two more events hears of a handled message what it is subscribed to, at the end
-- of its queue: of an accepted reading the event of the stored row and after it that of the stored
-- anomaly, if there is one, of an accepted status the event of the stored device, and of every
-- other outcome, an escaped exception included, nothing.
pub handle-Hears :
    {F S R : Type 0} (db : Database F S R) (now : ℕ) (ports : Ports F) (fl : Floats F)
    (settings : Settings F) (codec : Codec F) (m : InboundMessage) (v : Service S (Hub F)) (j : ℕ)
    → IsValid v.published
    → HasRoom v.published j
    → Hears db now ports codec
        (validate_message fl settings codec m.topic m.payload m.retained)
        m.received_at
        j
        v
        (handle db (hub_publisher now) ports fl settings codec m v)
handle-Hears db now ports fl settings codec m v j valid room =
    Matrix-Hears db now ports codec
      (validate_message fl settings codec m.topic m.payload m.retained) m.received_at j v
      (handle db (hub_publisher now) ports fl settings codec m v) valid room
      (handle-Matrix db (hub_publisher now) ports fl settings codec m v)
