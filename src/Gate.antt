-- ===== src/Gate.antt =====
-- ml/src/powerguard_ml/gate.py: whether a dataset may produce a model that is promoted. A message is
-- a constructor of `Reason`. `int(usable * 0.8)` is a parameter.
mod Reasons
pub mod Passed
mod Tests
use aiot_powerguard.Prelude.{
  ℕ, ◌+◌, ◌-◌, Bool, true, false, not, ◌&&◌, ◌||◌, Option, none, some, List, [], ◌∷◌, ◌++◌, ◌==◌,
  contains, list_eq, nat_eq, option_eq, if◌then◌else◌, ltb, leb, length, any_of, keep, map, head?,
}
use aiot_powerguard.Prelude.Result.{Result, done, refused}
use aiot_powerguard.Text.{Text, codes}
use aiot_powerguard.Measure.{Floats}
use aiot_powerguard.Dataset.{Sample}
use aiot_powerguard.Prepare.{Refusal, PreparedData, distinct, fingerprint_of, prepare, kept}
use aiot_powerguard.Review.{Manifest, is_hardware}

pub data Reason : Type 0 where
  no_manifest not_hardware devices_mixed other_device fingerprint_absent regimes_mixed : Reason
  regime_differs too_few_normal no_boots no_events no_abnormal too_few_usable : Reason
  too_few_train_windows too_few_calibration_windows : Reason
  placeholders_left unwitnessed_boots : List Text → Reason
  preparation_refused : Refusal → Reason

abbrev pub min_approved_samples : ℕ
min_approved_samples = 1_000

abbrev pub min_train_windows : ℕ
min_train_windows = 50

abbrev pub min_calibration_windows : ℕ
min_calibration_windows = 20

pub record GateResult : Type 0 where
  pub passed : Bool
  pub approved_samples : ℕ
  pub normal_samples : ℕ
  pub labelled_abnormal_samples : ℕ
  pub usable_samples : ℕ
  pub usable_segments : ℕ
  pub device_id : Option Text
  pub calibration_fingerprint : Option Text
  pub provenance : Text
  pub reasons : List Reason

unfoldable pub data_quality : GateResult → Text
data_quality r = if r.passed then codes "validated_real_data" else codes "quality_not_established"

-- `reasons.append` under a test
abbrev pub when : Bool → Reason → List Reason
when true reason = reason ∷ []
when false reason = []

abbrev pub starts_with : Text → Text → Bool
starts_with [] s = true
starts_with (c ∷ p) [] = false
starts_with (c ∷ p) (d ∷ s) = c == d && starts_with p s

-- `mark in text`
abbrev pub is_within : Text → Text → Bool
is_within mark [] = starts_with mark []
is_within mark (c ∷ s) = starts_with mark (c ∷ s) || is_within mark s

abbrev pub has_placeholder : Text → Bool
has_placeholder = is_within (codes "REPLACE-ME")

abbrev pub is_empty : {A : Type 0} → List A → Bool
is_empty [] = true
is_empty (_ ∷ _) = false

-- one value that differs, or several values
abbrev pub compare_one : Text → List Text → Reason → Reason → List Reason
compare_one expected [] several differs = []
compare_one expected (d ∷ []) several differs = when (not (d == expected)) differs
compare_one expected (d ∷ e ∷ ds) several differs = several ∷ []

unfoldable pub window_reasons : (ℕ → ℕ) → ℕ → List Reason
window_reasons eighty_percent usable =
    let train_rows = eighty_percent usable in
    if leb 1 usable
    then when (ltb ((train_rows + 1) - 30) min_train_windows) too_few_train_windows
      ++ when (ltb (((usable - train_rows) + 1) - 30) min_calibration_windows)
          too_few_calibration_windows
    else []

module _ {F : Type 0} where
  abbrev pub is_normal : Sample F → Bool
  is_normal s = s.label == none || s.label == some 0

  abbrev pub is_abnormal : Sample F → Bool
  is_abnormal s = s.label == some 1

  -- the fields that still hold a placeholder
  abbrev pub unfilled : Manifest F → List Text
  unfilled m =
      (if has_placeholder m.calibration_fingerprint
        then codes "calibration_fingerprint" ∷ []
        else [])
      ++ ((if has_placeholder m.firmware_version then codes "firmware_version" ∷ [] else [])
          ++ (if has_placeholder m.reviewed_by then codes "reviewed_by" ∷ [] else []))

  abbrev pub devices : List (Sample F) → List Text
  devices samples = distinct (map (λ s. s.device_id) samples)

  abbrev pub fingerprints : List (Sample F) → List Text
  fingerprints samples = distinct (map (λ s. fingerprint_of s.calibration_fingerprint) samples)

  abbrev pub boots : List (Sample F) → List Text
  boots samples = distinct (map (λ s. s.boot_id) samples)

  unfoldable pub attestation_reasons : Manifest F → List Reason
  attestation_reasons m =
      when (not (is_hardware m)) not_hardware
      ++ when (not (is_empty (unfilled m))) (placeholders_left (unfilled m))

  unfoldable pub identity_reasons : Manifest F → List (Sample F) → List Reason
  identity_reasons m samples =
      compare_one m.device_id (devices samples) devices_mixed other_device
      ++ (when (contains (fingerprints samples) []) fingerprint_absent
          ++ compare_one m.calibration_fingerprint
              (keep (λ f. not (is_empty f)) (fingerprints samples)) regimes_mixed regime_differs)

  abbrev pub boot_reasons : Manifest F → List (Sample F) → List Reason
  boot_reasons m samples =
      if is_empty m.boot_ids
      then no_boots ∷ []
      else let unwitnessed = keep (λ b. not (contains m.boot_ids b)) (boots samples) in
        when (not (is_empty unwitnessed)) (unwitnessed_boots unwitnessed)

  unfoldable pub witness_reasons : Manifest F → List (Sample F) → List Reason
  witness_reasons m samples =
      boot_reasons m samples
      ++ (if is_empty m.labelled_events
          then no_events ∷ []
          else when (is_empty (keep is_abnormal samples)) no_abnormal)

  -- what `prepare` came to, if it was called
  abbrev pub refusal_reasons : Option (Result Refusal (PreparedData F)) → List Reason
  refusal_reasons none = []
  refusal_reasons (some (done p)) = []
  refusal_reasons (some (refused e)) = preparation_refused e ∷ []

  abbrev pub usable_of : Option (Result Refusal (PreparedData F)) → ℕ
  usable_of (some (done p)) = kept p
  usable_of _ = 0

  abbrev pub segments_of : Option (Result Refusal (PreparedData F)) → ℕ
  segments_of (some (done p)) = length p.segments
  segments_of _ = 0

module _ {F : Type 0} (fl : Floats F) (gap : ℕ) where
  unfoldable pub prepared_of :
      Manifest F → List (Sample F) → Option (Result Refusal (PreparedData F))
  prepared_of m normal =
      if is_empty normal
      then none
      else some (prepare fl 30 gap none none m.expected_seq_stride normal)

module _ {F : Type 0} (fl : Floats F) (gap : ℕ) (eighty_percent : ℕ → ℕ) where
  unfoldable pub gate_reasons : ℕ → Manifest F → List (Sample F) → List Reason
  unfolding attestation_reasons identity_reasons witness_reasons window_reasons prepared_of
  gate_reasons min_approved m samples =
      let normal = keep is_normal samples in
      let prepared = prepared_of fl gap m normal in
      attestation_reasons m
      ++ (identity_reasons m samples
          ++ (when (ltb (length normal) min_approved) too_few_normal
              ++ (witness_reasons m samples
                  ++ (refusal_reasons prepared
                      ++ (when (ltb (usable_of prepared) min_approved) too_few_usable
                          ++ window_reasons eighty_percent (usable_of prepared))))))

  unfoldable pub evaluate_gate : ℕ → List (Sample F) → Option (Manifest F) → GateResult
  unfolding gate_reasons
  evaluate_gate min_approved samples none = record {
    passed = false;
    approved_samples = length samples;
    normal_samples = length (keep is_normal samples);
    labelled_abnormal_samples = length (keep is_abnormal samples);
    usable_samples = 0;
    usable_segments = 0;
    device_id = elim (head? samples) [ none ↦ none | some s ↦ some s.device_id ];
    calibration_fingerprint = none;
    provenance = codes "unattested";
    reasons = no_manifest ∷ [];
  }
  evaluate_gate min_approved samples (some m) =
      let normal = keep is_normal samples in
      let prepared = prepared_of fl gap m normal in
      let reasons = gate_reasons min_approved m samples in
      record {
        passed = is_empty reasons;
        approved_samples = length samples;
        normal_samples = length normal;
        labelled_abnormal_samples = length (keep is_abnormal samples);
        usable_samples = usable_of prepared;
        usable_segments = segments_of prepared;
        device_id = elim (devices samples) [ d ∷ [] ↦ some d | _ ↦ none ];
        calibration_fingerprint = some m.calibration_fingerprint;
        provenance = m.provenance;
        reasons = reasons;
      }
