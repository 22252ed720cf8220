-- ===== src/Train.antt =====
-- ml/src/powerguard_ml/train.py: the run of the training command after its arguments are parsed and
-- its files are read. The rows of `synthetic.training_set`, fitting a model and the `int` of a
-- float are parameters; what a run writes is its metadata.
pub mod Promoted
mod Tests
use aiot_powerguard.Prelude.{
  ℕ, ◌+◌, Bool, true, false, not, ◌&&◌, ◌||◌, Option, none, some, List, [], ◌∷◌, ◌++◌, ◌==◌,
  list_eq, nat_eq, option_eq, if◌then◌else◌, leb, length, keep, head?, map,
}
use aiot_powerguard.Prelude.Result.{Result, done, refused}
use aiot_powerguard.Text.{Text, codes}
use aiot_powerguard.Measure.{Floats}
use aiot_powerguard.Segments.Cut.{concat}
use aiot_powerguard.Dataset.{Sample}
use aiot_powerguard.Prepare.{Refusal, PreparedData, TimeSplit, prepare, time_split}
use aiot_powerguard.Features.{window_size, windows}
use aiot_powerguard.Review.{Manifest, apply_manifest}
use aiot_powerguard.Gate.{GateResult, evaluate_gate, min_approved_samples, is_empty}

pub data Source (F : Type 0) : Type 0 where
  synthetic : List (Sample F) → Source F
  dataset : List (Sample F) → Source F

pub record Arguments (F : Type 0) : Type 0 where
  pub source : Source F
  pub manifest : Option (Manifest F)
  pub promote : Bool
  pub device_id : Option Text
  pub calibration_fingerprint : Option Text
  pub threshold : F
  pub consecutive : ℕ
  pub train_fraction : F
  pub model_version : Text

pub record Metadata (F : Type 0) : Type 0 where
  pub model_version : Text
  pub device_id : Text
  pub expected_seq_stride : ℕ
  pub threshold : F
  pub consecutive : ℕ
  pub training_samples : ℕ
  pub training_windows : ℕ
  pub calibration_windows : ℕ
  pub calibration_fingerprint : Option Text
  pub data_quality : Text
  pub data_provenance : Text

-- What a run comes to: an artifact, an exit code, a `ValueError` of `prepare` or `time_split`, and an `IndexError`.
pub data Run (F : Type 0) : Type 0 where
  writes : Metadata F → Run F
  exits : ℕ → Run F
  raises : Refusal → Run F
  no_row : Run F

abbrev pub exit_blocked : ℕ
exit_blocked = 3

abbrev pub validated : Text
validated = codes "validated_real_data"

abbrev pub not_established : Text
not_established = codes "quality_not_established"

-- `a or b`
abbrev pub or_else : Option Text → Option Text → Option Text
or_else (some (c ∷ s)) b = some (c ∷ s)
or_else _ b = b

abbrev pub text_of : Option Text → Text
text_of none = []
text_of (some s) = s

module _ {F : Type 0} where
  abbrev pub is_synthetic : Source F → Bool
  is_synthetic (synthetic _) = true
  is_synthetic (dataset _) = false

  -- the rows, and where they come from
  unfoldable pub rows_of : Source F → Option (Manifest F) → List (Sample F)
  rows_of (synthetic rows) manifest = rows
  rows_of (dataset rows) none = rows
  rows_of (dataset rows) (some m) = apply_manifest m rows

  abbrev pub provenance_of : Source F → Option (Manifest F) → Text
  provenance_of (synthetic _) manifest = codes "synthetic"
  provenance_of (dataset _) none = codes "real_export"
  provenance_of (dataset _) (some m) = m.provenance

  abbrev pub stride_of : Option (Manifest F) → ℕ
  stride_of none = 2
  stride_of (some m) = m.expected_seq_stride

  abbrev pub manifest_device : Option (Manifest F) → Option Text
  manifest_device none = none
  manifest_device (some m) = some m.device_id

  -- the number of rows of the matrix over the segments
  abbrev pub window_count : List (List (Sample F)) → ℕ
  window_count segments = length (concat (map (windows window_size) segments))

module _ {F : Type 0} (fl : Floats F) (gap : ℕ) (eighty_percent : ℕ → ℕ) (truncated : F → ℕ) where
  -- `prepare(part, expected_seq_stride=stride)` of a part that is not empty
  abbrev pub prepare_part : ℕ → List (Sample F) → Result Refusal (List (List (Sample F)))
  prepare_part stride [] = done []
  prepare_part stride (row ∷ rows) = elim (prepare fl 30 gap none none stride (row ∷ rows)) [
    | refused e ↦ refused e
    | done p ↦ done p.segments
  ]

  -- the metadata of the model that is fitted
  abbrev pub described : Arguments F → Bool → Sample F → TimeSplit F → ℕ → ℕ → Metadata F
  described a passed first split train_windows calibration_windows = record {
    model_version = a.model_version;
    device_id = text_of (or_else a.device_id (some first.device_id));
    expected_seq_stride = stride_of a.manifest;
    threshold = a.threshold;
    consecutive = a.consecutive;
    training_samples = length split.train;
    training_windows = train_windows;
    calibration_windows = calibration_windows;
    calibration_fingerprint = or_else a.calibration_fingerprint first.calibration_fingerprint;
    data_quality = if a.promote && passed then validated else not_established;
    data_provenance = provenance_of a.source a.manifest;
  }

  -- whether each side has a window
  abbrev pub fitted : Bool → Metadata F → Run F
  fitted true metadata = writes metadata
  fitted false metadata = exits 2

  -- with what `prepare` came to on the two sides
  abbrev pub fit_split :
      Arguments F
      → Bool
      → Sample F
      → TimeSplit F
      → Result Refusal (List (List (Sample F)))
      → Result Refusal (List (List (Sample F)))
      → Run F
  fit_split a passed first split (refused e) calibration = raises e
  fit_split a passed first split (done train) (refused e) = raises e
  fit_split a passed first split (done train) (done calibration) =
      fitted (leb 1 (window_count train) && leb 1 (window_count calibration))
        (described a passed first split (window_count train) (window_count calibration))

  -- with what `time_split` came to
  abbrev pub fit_parts : Arguments F → Bool → Sample F → Result Refusal (TimeSplit F) → Run F
  fit_parts a passed first (refused e) = raises e
  fit_parts a passed first (done split) =
      fit_split a passed first split (prepare_part (stride_of a.manifest) split.train)
        (prepare_part (stride_of a.manifest) split.calibration)

  -- from the usable rows on
  unfoldable pub fit : Arguments F → Bool → List (Sample F) → Run F
  fit a passed [] = no_row
  fit a passed (row ∷ rows) =
      fit_parts a passed row (time_split fl truncated a.train_fraction (row ∷ rows))

  -- with what `prepare` came to on the normal rows
  unfoldable pub train_prepared : Arguments F → Bool → Result Refusal (PreparedData F) → Run F
  unfolding fit
  train_prepared a passed (refused e) = raises e
  train_prepared a passed (done p) =
      if is_empty p.segments then exits 2 else fit a passed (concat p.segments)

  -- after the gate
  unfoldable pub train_on : Arguments F → Bool → List (Sample F) → Run F
  unfolding train_prepared
  train_on a passed rows = train_prepared a passed (
      prepare fl 30 gap (or_else a.device_id (manifest_device a.manifest)) a.calibration_fingerprint
        (stride_of a.manifest) (keep (λ row. not (row.label == some 1)) rows))

  -- `min_approved` is the default of `evaluate_gate`, `min_approved_samples`
  unfoldable pub main : ℕ → Arguments F → Run F
  unfolding rows_of train_on
  main min_approved a =
      if a.promote && is_synthetic a.source
      then exits exit_blocked
      else let rows = rows_of a.source a.manifest in
        let passed = (evaluate_gate fl gap eighty_percent min_approved rows a.manifest).passed in
        if a.promote && not passed then exits exit_blocked else train_on a passed rows
