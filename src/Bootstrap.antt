-- ===== src/Bootstrap.antt =====
-- backend/src/powerguard/bootstrap.py: the wiring of the process. The hub is the publisher of the
-- ingestion, and the scan for stale devices shares its tracker, storage and hub.
pub mod Feed
pub mod Scan
mod Tests
use aiot_powerguard.Prelude.{
  ℕ, ◌+◌, ◌-◌, Bool, true, false, Option, none, some, List, [], ◌∷◌, if◌then◌else◌,
}
use aiot_powerguard.Text.{Text}
use aiot_powerguard.Entities.{Device, stale}
use aiot_powerguard.Hub.{Hub, dispatch, telemetry_event, anomaly_event, status_event}
use aiot_powerguard.Status.{Tracker, record_status}
use aiot_powerguard.Store.{
  Database, Outcome, returns, raises, Task, Uow, ◌>>=◌, ◌>>◌, give, with_uow, mark_stale, get_row,
  commit,
}
use aiot_powerguard.Ingestion.{EventPublisher}

-- `EventHub.publish_telemetry`, `publish_anomaly` and `publish_device_status`
abbrev pub hub_publisher : {F : Type 0} → ℕ → EventPublisher F (Hub F)
hub_publisher now = record {
  publish_telemetry = λ t. dispatch (telemetry_event t now);
  publish_anomaly = λ a. dispatch (anomaly_event a now);
  publish_device_status = λ d. dispatch (status_event d now);
}

-- `StaleStaleCounters`
pub record StaleCounters : Type 0 where
  pub scans : ℕ
  pub transitions : ℕ
  pub failures : ℕ

-- the parts of the container that the scan changes
pub record Container (S P : Type 0) : Type 0 where
  pub counters : StaleCounters
  pub tracker : Tracker
  pub storage : S
  pub published : P

module _ {F S R : Type 0} (db : Database F S R) where
  kept_row : Option R → List Device → Task S (List Device)
  kept_row none rest = give rest
  kept_row (some r) rest = λ u. (returns (db.device_of r u.session ∷ rest), u)

  get_all : List Text → Task S (List Device)
  unfolding kept_row
  get_all [] = give []
  get_all (i ∷ is) = do row ← get_row db i; rest ← get_all is; kept_row row rest

  -- `_mark_stale`
  unfoldable pub mark_stale_rows : ℕ → S → Outcome (List Device) × S
  unfolding get_all
  mark_stale_rows cutoff = with_uow db (do ids ← mark_stale db cutoff; commit db; get_all ids)

module _ {S P : Type 0} (publish_device_status : Device → P → P) where
  -- one round of the scan's loop over the devices
  unfoldable pub announce : Device → Container S P → Container S P
  announce d v =
      let (tracker, changed) = record_status d.id stale v.tracker in
      if changed
      then record v {
        tracker = tracker;
        counters = record v.counters { transitions = v.counters.transitions + 1 };
        published = publish_device_status d v.published;
      }
      else record v { tracker = tracker }

  unfoldable pub announce_all : List Device → Container S P → Container S P
  announce_all [] v = v
  announce_all (d ∷ ds) v = announce_all ds (announce d v)

  unfoldable pub after_mark : Container S P → Outcome (List Device) × S → Container S P
  after_mark v (returns ds, s) = announce_all ds (record v { storage = s })
  after_mark v (raises e, s) = record v {
    storage = s;
    counters = record v.counters { failures = v.counters.failures + 1 };
  }

  -- one pass of `_stale_scan_loop` after its sleep
  unfoldable pub stale_scan :
      {F R : Type 0} → Database F S R → ℕ → ℕ → Container S P → Container S P
  stale_scan db now stale_after v =
      let counted = record v { counters = record v.counters { scans = v.counters.scans + 1 } } in
      after_mark counted (mark_stale_rows db (now - stale_after) v.storage)
