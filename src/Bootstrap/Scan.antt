-- ===== src/Bootstrap/Scan.antt =====
-- What the scan for stale devices announces.
use aiot_powerguard.Prelude.{
  ◌+◌, ◌≡◌, refl, some, List, [], ◌∷◌, arith, ◌==◌, list_eq, nat_eq, option_eq, if◌then◌else◌,
  any_of,
}
use aiot_powerguard.Text.{Text}
use aiot_powerguard.Entities.{Device, stale, status_eq}
use aiot_powerguard.Status.{record_status, current}
use aiot_powerguard.Status.History.{record_status_lem}
use aiot_powerguard.Bootstrap.{Container, announce, announce_all}

module _ {S P : Type 0} (publish : Device → P → P) where
  announce-current :
      (d : Device) (v : Container S P) (j : Text)
      → current j (announce publish d v).tracker
        ≡ (if j == d.id then some stale else current j v.tracker)
  unfolding announce
  announce-current d v j = ground (arith, record_status_lem d.id stale v.tracker j)

  announce-transitions :
      (d : Device) (v : Container S P)
      → (announce publish d v).counters.transitions + v.tracker.counters.status_transitions
        ≡ v.counters.transitions + (announce publish d v).tracker.counters.status_transitions
  unfolding announce record_status
  announce-transitions d v = ground arith

  announce_all-transitions :
      (ds : List Device) (v : Container S P)
      → (announce_all publish ds v).counters.transitions + v.tracker.counters.status_transitions
        ≡ v.counters.transitions + (announce_all publish ds v).tracker.counters.status_transitions
  unfolding announce_all
  announce_all-transitions [] v = refl
  announce_all-transitions (d ∷ ds) v =
      omega (arith, announce-transitions d v, announce_all-transitions ds (announce publish d v))

  announce_all-current :
      (ds : List Device) (v : Container S P) (j : Text)
      → current j (announce_all publish ds v).tracker
        ≡ (if any_of (λ d. j == d.id) ds then some stale else current j v.tracker)
  unfolding announce_all
  announce_all-current [] v j = refl
  announce_all-current (d ∷ ds) v j =
      ground (arith, announce_all-current ds (announce publish d v) j, announce-current d v j)

  -- After the devices of a scan, the transition counter of the scan has grown by as much as the one
  -- of the shared tracker; the tracker remembers every device of the scan as stale, and of any other
  -- device what it remembered before.
  pub announce_all_lem :
      (ds : List Device) (v : Container S P) (j : Text)
      → ((announce_all publish ds v).counters.transitions + v.tracker.counters.status_transitions
          ≡ v.counters.transitions
            + (announce_all publish ds v).tracker.counters.status_transitions)
        × (current j (announce_all publish ds v).tracker
            ≡ (if any_of (λ d. j == d.id) ds then some stale else current j v.tracker))
  announce_all_lem ds v j = (announce_all-transitions ds v, announce_all-current ds v j)

  -- A device that the tracker already remembers as stale is not published again.
  pub announce-again :
      (d : Device) (v : Container S P)
      → current d.id v.tracker ≡ some stale
      → (announce publish d v).published ≡ v.published
  unfolding announce record_status current status_eq
  announce-again d v h = ground arith
