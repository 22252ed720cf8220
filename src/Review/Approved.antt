-- ===== src/Review/Approved.antt =====
-- The rows that a manifest approves, without the loop and without the order of the intervals.
use aiot_powerguard.Prelude.{
  ℕ, ◌<◌, ◌≡◌, refl, ap, ◌∙◌, Bool, true, false, ◌&&◌, ◌||◌, Option, none, some, List, [], ◌∷◌,
  ◌++◌, ◌==◌, list_eq, nat_eq, if◌then◌else◌, any_of, keep, map, arith, All, Bool-cases, inl, inr,
}
use aiot_powerguard.Prelude.Result.{done}
use aiot_powerguard.Measure.{Floats}
use aiot_powerguard.Json.{Members, Builtins}
use aiot_powerguard.Dataset.{Sample}
use aiot_powerguard.Review.{
  Interval, Manifest, covers, intervals, covering, of_boot, approve, apply_manifest, parse_manifest,
}
use aiot_powerguard.Review.Attested.{parse_manifest-IsAttested}

abbrev pub any_covers : List Interval → ℕ → Bool
any_covers ns t = any_of (λ i. covers i t) ns

covering-none : (ns : List Interval) (t : ℕ) → any_covers ns t ≡ false → covering ns t ≡ none
covering-none [] t h = refl
covering-none (i ∷ ns) t h = ground (arith, covering-none ns t)

covering-some :
    (ns : List Interval) (t : ℕ)
    → any_covers ns t ≡ true
    → (i : Interval) × (covering ns t ≡ some i)
covering-some [] t h = absurd cc
covering-some (i ∷ ns) t h = elim (Bool-cases (covers i t)) [
  | inl e ↦ (i, rw e refl)
  | inr e ↦ let (j, k) = covering-some ns t (ground arith) in (j, rw e k)
]

covering-normal :
    (ns es : List Interval) (t : ℕ)
    → All (λ i. (i.start < i.end) × (i.label ≡ 0)) ns
    → any_covers ns t ≡ true
    → (i : Interval) × (covering (ns ++ es) t ≡ some i) × (i.label ≡ 0)
covering-normal [] es t a h = absurd cc
covering-normal (i ∷ ns) es t a h = elim (Bool-cases (covers i t)) [
  | inl e ↦ (i, rw e refl, a.0.1)
  | inr e ↦ let (j, k, l) = covering-normal ns es t a.1 (ground arith) in (j, rw e k, l)
]

covering-append :
    (ns es : List Interval) (t : ℕ)
    → any_covers ns t ≡ false
    → covering (ns ++ es) t ≡ covering es t
covering-append [] es t h = refl
covering-append (i ∷ ns) es t h = ground (arith, covering-append ns es t)

abbrev pub event_label : Option Interval → ℕ
event_label none = 0
event_label (some e) = e.label

module _ {F : Type 0} where
  -- The device and the boot are the witnessed ones, and an interval covers the moment.
  abbrev pub is_approved : Manifest F → Sample F → Bool
  is_approved m s =
      s.device_id == m.device_id
      && (of_boot m s
          && (any_covers m.approved_intervals s.received_at
              || any_covers m.labelled_events s.received_at))

  -- normal in an approved interval, and what the first event says elsewhere
  abbrev pub witnessed : Manifest F → Sample F → Sample F
  witnessed m s = record s {
    label = some (
        if any_covers m.approved_intervals s.received_at
        then 0
        else event_label (covering m.labelled_events s.received_at));
    calibration_fingerprint = some m.calibration_fingerprint;
  }

  abbrev in_interval : Manifest F → Sample F → Bool
  in_interval m s =
      any_covers m.approved_intervals s.received_at || any_covers m.labelled_events s.received_at

  approve-witnessed :
      (m : Manifest F) (s : Sample F) (rest : List (Sample F))
      → All (λ i. (i.start < i.end) × (i.label ≡ 0)) m.approved_intervals
      → approve m s (covering (intervals m) s.received_at) rest
        ≡ (if in_interval m s then witnessed m s ∷ rest else rest)
  approve-witnessed m s rest normal =
      let t = s.received_at in
      elim (Bool-cases (any_covers m.approved_intervals t)) [
        | inl e ↦
            let (i, found, zero_label) =
              covering-normal m.approved_intervals m.labelled_events t normal e in
            rw (found, e)
              (ap
                (λ n.
                  record s {
                    label = some n;
                    calibration_fingerprint = some m.calibration_fingerprint;
                  }
                  ∷ rest)
                zero_label)
        | inr e ↦
            let same = covering-append m.approved_intervals m.labelled_events t e in
            elim (Bool-cases (any_covers m.labelled_events t)) [
              | inl k ↦
                  let (i, found) = covering-some m.labelled_events t k in
                  rw (same, found, e, k) refl
              | inr k ↦ rw (same, covering-none m.labelled_events t k, e, k) refl
            ]
      ]

  apply-witnessed :
      (m : Manifest F) (samples : List (Sample F))
      → All (λ i. (i.start < i.end) × (i.label ≡ 0)) m.approved_intervals
      → apply_manifest m samples ≡ map (witnessed m) (keep (is_approved m) samples)
  unfolding apply_manifest
  apply-witnessed m [] normal = refl
  apply-witnessed m (s ∷ samples) normal =
      let rest = apply-witnessed m samples normal in
      let one = approve-witnessed m s (apply_manifest m samples) normal in
      elim (Bool-cases (s.device_id == m.device_id)) [
        | inr d ↦ rw d rest
        | inl d ↦ elim (Bool-cases (of_boot m s)) [
          | inr b ↦ rw (d, b) rest
          | inl b ↦ elim (Bool-cases (in_interval m s)) [
            | inr n ↦ rw (d, b, n) (one ∙ rw n rest)
            | inl n ↦ rw (d, b, n) (one ∙ rw n (ap (λ w. witnessed m s ∷ w) rest))
          ]
        ]
      ]

-- For a manifest that `parse_manifest` accepted, `apply_manifest` keeps in their order exactly the
-- rows of its device and of a witnessed boot (any boot when none is named) that some interval covers.
-- It stamps them with the fingerprint, and with the label 0 in an approved interval and otherwise
-- with the label of the first event that covers them.
pub apply_manifest-witnessed :
    {F : Type 0} (fl : Floats F) (py : Builtins F) (payload : Members F) (m : Manifest F)
    → parse_manifest fl py payload ≡ done m
    → (samples : List (Sample F))
    → apply_manifest m samples ≡ map (witnessed m) (keep (is_approved m) samples)
apply_manifest-witnessed fl py payload m h samples =
    let attested = parse_manifest-IsAttested fl py payload m h in
    apply-witnessed m samples attested.approved
