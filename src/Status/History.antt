-- ===== src/Status/History.antt =====
-- The tracker over a history of records.
use aiot_powerguard.Prelude.{
  ℕ, ◌+◌, ◌≡◌, refl, true, false, Option, some, List, [], ◌∷◌, arith, ◌==◌, list_eq, nat_eq,
  option_eq, if◌then◌else◌, ◌∙◌, ap, Bool-cases, inl, inr,
}
use aiot_powerguard.Prelude.Dict.{Dict, get_or, lookup-insert}
use aiot_powerguard.Text.{Text}
use aiot_powerguard.Entities.{DeviceStatus, online, offline, stale, status_eq}
use aiot_powerguard.Status.{Tracker, current, record_status}

-- A record call reports a change exactly if the remembered status differs; afterwards the status is
-- remembered, and no other device is touched.
pub record_status_lem :
    (d : Text) (s : DeviceStatus) (t : Tracker) (j : Text)
    → ((record_status d s t).1 ≡ (if current d t == some s then false else true))
      × (current j (record_status d s t).0 ≡ (if j == d then some s else current j t))
unfolding record_status current
record_status_lem d s t j = ground (arith, lookup-insert j d s t.remembered)

-- The sum of the per-status counters.
abbrev total_by_status : Dict DeviceStatus ℕ → ℕ
total_by_status c = get_or online 0 c + (get_or offline 0 c + get_or stale 0 c)

abbrev pub Counts : Tracker → Type 0
Counts t = t.counters.status_transitions ≡ total_by_status t.counters.transitions_by_status

record_status-Counts :
    (d : Text) (s : DeviceStatus) (t : Tracker) → Counts t → Counts (record_status d s t).0
unfolding record_status status_eq
record_status-Counts d s t h = ground (
  arith,
  lookup-insert online s (get_or s 0 t.counters.transitions_by_status + 1)
      t.counters.transitions_by_status,
  lookup-insert offline s (get_or s 0 t.counters.transitions_by_status + 1)
      t.counters.transitions_by_status,
  lookup-insert stale s (get_or s 0 t.counters.transitions_by_status + 1)
      t.counters.transitions_by_status,
)

-- Calls of `record`, in order, with the number of calls that reported a change.
unfoldable pub record_all : List (Text × DeviceStatus) → Tracker → Tracker × ℕ
record_all [] t = (t, 0)
record_all ((d, s) ∷ rest) t =
    let (t', changed) = record_status d s t in
    let (u, n) = record_all rest t' in (u, if changed then n + 1 else n)

-- The status that the calls leave for a device.
unfoldable pub last_recorded :
    Text → List (Text × DeviceStatus) → Option DeviceStatus → Option DeviceStatus
last_recorded j [] before = before
last_recorded j ((d, s) ∷ rest) before = last_recorded j rest (if j == d then some s else before)

-- The calls whose status is not the one that the device had before, where `known` says the statuses
-- before the first call.
unfoldable pub changes : List (Text × DeviceStatus) → (Text → Option DeviceStatus) → ℕ
changes [] known = 0
changes ((d, s) ∷ rest) known =
    let n = changes rest (λ j. if j == d then some s else known j) in
    if known d == some s then n else n + 1

record_all-reports :
    (calls : List (Text × DeviceStatus)) (t : Tracker)
    → (record_all calls t).1 ≡ changes calls (λ j. current j t)
unfolding record_all changes
record_all-reports [] t = refl
record_all-reports ((d, s) ∷ rest) t =
    let t' = (record_status d s t).0 in
    let (reported, _) = record_status_lem d s t d in
    let known : (λ j. current j t') ≡ (λ j. if j == d then some s else current j t) =
      λ i. λ j. (record_status_lem d s t j).1 i in
    let n : (record_all rest t').1 ≡ changes rest (λ j. if j == d then some s else current j t) =
      record_all-reports rest t' ∙ ap (changes rest) known in
    elim (Bool-cases (current d t == some s)) [
      | inl e ↦ let same : (record_status d s t).1 ≡ false = rw e at reported in rw (same, e) n
      | inr e ↦
          let other : (record_status d s t).1 ≡ true = rw e at reported in
          rw (other, e) (ap (λ k. k + 1) n)
    ]

record_all-changes :
    (calls : List (Text × DeviceStatus)) (t : Tracker)
    → (record_all calls t).0.counters.status_transitions
      ≡ t.counters.status_transitions + (record_all calls t).1
unfolding record_all record_status
record_all-changes [] t = omega arith
record_all-changes ((d, s) ∷ rest) t =
    ground (arith, record_all-changes rest (record_status d s t).0)

record_all-Counts :
    (calls : List (Text × DeviceStatus)) (t : Tracker) → Counts t → Counts (record_all calls t).0
unfolding record_all
record_all-Counts [] t h = h
record_all-Counts ((d, s) ∷ rest) t h =
    record_all-Counts rest (record_status d s t).0 (record_status-Counts d s t h)

record_all-current :
    (calls : List (Text × DeviceStatus)) (t : Tracker) (j : Text)
    → current j (record_all calls t).0 ≡ last_recorded j calls (current j t)
unfolding record_all last_recorded
record_all-current [] t j = refl
record_all-current ((d, s) ∷ rest) t j =
    record_all-current rest (record_status d s t).0 j
    ∙ ap (last_recorded j rest) (record_status_lem d s t j).1

-- After any calls on a tracker: the calls that reported a change are as many as those whose status is
-- not the one that their device had before them, by the history of the calls alone, and the transition
-- counter has grown by their number. If the per-status counters added up to it before, they still
-- do. Every device has the status of its last call, or the one from before if no call named it.
pub record_all_lem :
    (calls : List (Text × DeviceStatus)) (t : Tracker) (j : Text)
    → Counts t
    → let (u, n) = record_all calls t in
      (n ≡ changes calls (λ d. current d t))
      × (u.counters.status_transitions
          ≡ t.counters.status_transitions + changes calls (λ d. current d t))
      × Counts u
      × (current j u ≡ last_recorded j calls (current j t))
record_all_lem calls t j h = (
  record_all-reports calls t,
  record_all-changes calls t
      ∙ ap (λ n. t.counters.status_transitions + n) (record_all-reports calls t),
  record_all-Counts calls t h,
  record_all-current calls t j,
)
