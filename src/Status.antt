-- ===== src/Status.antt =====
-- backend/src/powerguard/device_status.py: the one path of a device status transition.
pub mod History
mod Tests
use aiot_powerguard.Prelude.{
  ℕ, ◌+◌, Bool, true, false, Option, none, some, ◌==◌, list_eq, nat_eq, option_eq, [],
  if◌then◌else◌,
}
use aiot_powerguard.Prelude.Dict.{Dict, lookup, insert, erase, get_or}
use aiot_powerguard.Text.{Text}
use aiot_powerguard.Entities.{DeviceStatus, status_eq}

pub record StatusCounters : Type 0 where
  pub status_transitions : ℕ
  pub transitions_by_status : Dict DeviceStatus ℕ

pub record Tracker : Type 0 where
  pub counters : StatusCounters
  pub remembered : Dict Text DeviceStatus

-- `DeviceStatusTracker()`
abbrev pub new_tracker : Tracker
new_tracker = record {
  counters = record { status_transitions = 0; transitions_by_status = [] };
  remembered = [];
}

unfoldable pub current : Text → Tracker → Option DeviceStatus
current device_id t = lookup device_id t.remembered

abbrev bump_by_status : DeviceStatus → StatusCounters → StatusCounters
bump_by_status status c = record {
  status_transitions = c.status_transitions + 1;
  transitions_by_status =
      insert status (get_or status 0 c.transitions_by_status + 1) c.transitions_by_status;
}

-- the new tracker, and whether the status changed
unfoldable pub record_status : Text → DeviceStatus → Tracker → Tracker × Bool
record_status device_id status t =
    if lookup device_id t.remembered == some status then (t, false) else (
      record t {
        counters = bump_by_status status t.counters;
        remembered = insert device_id status t.remembered;
      },
      true,
    )

unfoldable pub forget : Text → Tracker → Tracker
forget device_id t = record t { remembered = erase device_id t.remembered }
