-- ===== src/Status/Tests.antt =====
-- The tracker at concrete inputs.
use aiot_powerguard.Prelude.{◌+◌, ◌≡◌, refl, [], ◌∷◌, list_eq, nat_eq, option_eq, ℕ_discrete, List}
use aiot_powerguard.Prelude.Dict.{lookup, insert}
use aiot_powerguard.Text.{Text, codes}
use aiot_powerguard.Entities.{DeviceStatus, online, stale, status_eq}
use aiot_powerguard.Status.{new_tracker, current, record_status}
use aiot_powerguard.Status.History.{Counts, record_all, changes, last_recorded, record_all_lem}

abbrev meter : Text
meter = codes "m1"

abbrev calls : List (Text × DeviceStatus)
calls = (meter, online) ∷ (meter, online) ∷ (meter, stale) ∷ []

new_tracker-Counts : Counts new_tracker
unfolding lookup
new_tracker-Counts = refl

record_all_lem_example :
    ((record_all calls new_tracker).1 ≡ changes calls (λ d. current d new_tracker))
    × ((record_all calls new_tracker).0.counters.status_transitions
        ≡ 0 + changes calls (λ d. current d new_tracker))
    × Counts (record_all calls new_tracker).0
    × (current meter (record_all calls new_tracker).0
        ≡ last_recorded meter calls (current meter new_tracker))
record_all_lem_example = record_all_lem calls new_tracker meter new_tracker-Counts

two_changes : (record_all calls new_tracker).1 ≡ 2
unfolding record_all record_status lookup insert list_eq option_eq status_eq ℕ_discrete
two_changes = refl
