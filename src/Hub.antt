-- ===== src/Hub.antt =====
-- backend/src/powerguard/realtime/hub.py and events.py: the fan-out of committed records to the
-- WebSocket subscriptions. A subscription object is known by a number; `objects` holds them all.
pub mod Registry
mod Numbers
pub mod Accounts
pub mod Queues
pub mod Room
mod Tests
use aiot_powerguard.Prelude.{
  ℕ, ◌+◌, ◌≡◌, Bool, true, false, not, ◌&&◌, ◌||◌, Option, none, some, List, [], ◌∷◌, ◌++◌, ◌==◌,
  nat_eq, list_eq, if◌then◌else◌, ltb, leb, length, contains, keep,
}
use aiot_powerguard.Prelude.Dict.{Dict, lookup, insert, erase}
use aiot_powerguard.Text.{Text}
use aiot_powerguard.Entities.{Device, Telemetry, Anomaly}

-- the record that a frame is a snapshot of
pub data Snapshot (F : Type 0) : Type 0 where
  of_telemetry : Telemetry F → Snapshot F
  of_anomaly : Anomaly F → Snapshot F
  of_status : Device → Snapshot F

pub record Event (F : Type 0) : Type 0 where
  pub device_id : Text
  pub emitted_at : ℕ
  pub snapshot : Snapshot F

pub record Subscription (F : Type 0) : Type 0 where
  pub device_id : Text
  pub queue : List (Event F)
  pub dropped : Bool
  pub closed : Bool

pub record HubCounters : Type 0 where
  pub opened : ℕ
  pub closed : ℕ
  pub rejected : ℕ
  pub slow_clients_dropped : ℕ
  pub events_published : ℕ
  pub events_delivered : ℕ

pub record Hub (F : Type 0) : Type 0 where
  pub max_connections : ℕ
  pub queue_size : ℕ
  pub counters : HubCounters
  pub subscriptions : Dict Text (List ℕ)
  pub objects : ℕ → Subscription F
  -- the number of the next object
  pub fresh : ℕ

module _ {F : Type 0} where
  unfoldable pub telemetry_event : Telemetry F → ℕ → Event F
  telemetry_event t now = record {
    device_id = t.device_id;
    emitted_at = now;
    snapshot = of_telemetry t;
  }

  unfoldable pub anomaly_event : Anomaly F → ℕ → Event F
  anomaly_event a now = record {
    device_id = a.device_id;
    emitted_at = now;
    snapshot = of_anomaly a;
  }

  unfoldable pub status_event : Device → ℕ → Event F
  status_event d now = record { device_id = d.id; emitted_at = now; snapshot = of_status d }

abbrev pub is_empty {ℓ} : {A : Type ℓ} → List A → Bool
is_empty [] = true
is_empty (_ ∷ _) = false

abbrev pub total : Dict Text (List ℕ) → ℕ
total [] = 0
total ((_, ids) ∷ d) = length ids + total d

-- `set.discard`
abbrev pub discard : ℕ → List ℕ → List ℕ
discard i = keep (λ j. not (i == j))

abbrev pub ids_of : Option (List ℕ) → List ℕ
ids_of none = []
ids_of (some ids) = ids

-- the set of a device after a change: an empty set is taken out of the dict
abbrev pub put_ids : Text → List ℕ → Dict Text (List ℕ) → Dict Text (List ℕ)
put_ids device_id ids d = if is_empty ids then erase device_id d else insert device_id ids d

-- What a call of `next_event` comes to: an event, the end, or a wait.
pub data Next (F : Type 0) : Type 0 where
  event : Event F → Next F
  ended waits : Next F

module _ {F : Type 0} where
  unfoldable pub connection_count : Hub F → ℕ
  connection_count h = total h.subscriptions

  abbrev pub set_object : ℕ → Subscription F → Hub F → Hub F
  set_object i s h = record h { objects = λ j. if j == i then s else h.objects j }

  abbrev pub close_object : ℕ → Hub F → Hub F
  close_object i h = set_object i (record (h.objects i) { closed = true }) h

  -- `subscribe`: the number of the new subscription, or `none` for `HubFullError`
  unfoldable pub subscribe : Text → Hub F → Hub F × Option ℕ
  unfolding connection_count
  subscribe device_id h =
      if leb h.max_connections (connection_count h)
      then (record h { counters = record h.counters { rejected = h.counters.rejected + 1 } }, none)
      else let i = h.fresh in
        let s : Subscription F = record {
          device_id = device_id;
          queue = [];
          dropped = false;
          closed = false;
        } in
        (
          record (set_object i s h) {
            subscriptions =
                insert device_id (i ∷ ids_of (lookup device_id h.subscriptions)) h.subscriptions;
            counters = record h.counters { opened = h.counters.opened + 1 };
            fresh = h.fresh + 1;
          },
          some i,
        )

  unfoldable pub unsubscribe : ℕ → Hub F → Hub F
  unsubscribe i h =
      let device_id = (h.objects i).device_id in
      let b = close_object i h in
      elim (lookup device_id h.subscriptions) [
        | none ↦ b
        | some ids ↦ if not (contains ids i) then b else record b {
          subscriptions = put_ids device_id (discard i ids) h.subscriptions;
          counters = record h.counters { closed = h.counters.closed + 1 };
        }
      ]

  -- `put_nowait` raises `QueueFull`; a size of 0 means no bound
  abbrev pub is_full : ℕ → List (Event F) → Bool
  is_full size q = ltb 0 size && leb size (length q)

  -- One round of `_dispatch`: the subscription takes the event, or is dropped from the set.
  unfoldable pub deliver : Event F → ℕ → Hub F × List ℕ → Hub F × List ℕ
  deliver e i (h, live) =
      let s = h.objects i in
      if is_full h.queue_size s.queue
      then (
        record (set_object i (record s { dropped = true; closed = true }) h) {
          counters = record h.counters {
            slow_clients_dropped = h.counters.slow_clients_dropped + 1;
            closed = h.counters.closed + 1;
          };
        },
        discard i live,
      )
      else (
        record (set_object i (record s { queue = s.queue ++ e ∷ [] }) h) {
          counters = record h.counters { events_delivered = h.counters.events_delivered + 1 };
        },
        live,
      )

  unfoldable pub deliver_all : Event F → List ℕ → Hub F × List ℕ → Hub F × List ℕ
  deliver_all e [] p = p
  deliver_all e (i ∷ is) p = deliver_all e is (deliver e i p)

  unfoldable pub dispatch : Event F → Hub F → Hub F
  dispatch e h =
      let b = record h {
        counters = record h.counters { events_published = h.counters.events_published + 1 };
      } in
      elim (lookup e.device_id h.subscriptions) [
        | none ↦ b
        | some ids ↦
            if is_empty ids
            then b
            else let (c, live) = deliver_all e ids (b, ids) in
              record c { subscriptions = put_ids e.device_id live c.subscriptions }
      ]

  pop_event : ℕ → Subscription F → List (Event F) → Hub F → Hub F × Next F
  pop_event i s [] h = (h, if s.closed then ended else waits)
  pop_event i s (e ∷ q) h = (set_object i (record s { queue = q }) h, event e)

  unfoldable pub next_event : ℕ → Hub F → Hub F × Next F
  unfolding pop_event
  next_event i h = pop_event i (h.objects i) (h.objects i).queue h
