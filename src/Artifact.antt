-- ===== src/Artifact.antt =====
-- ml/src/powerguard_ml/artifact.py, and the constructor of the adapter in adapter.py: which artifact
-- is loaded. The files of an artifact are a parameter; an `OSError` while they are read is left out.
pub mod Load
mod Valid
pub mod Trusted
mod Tests
use aiot_powerguard.Prelude.{
  ℕ, zero, suc, Bool, true, false, not, ◌&&◌, ◌||◌, Option, none, some, List, [], ◌∷◌, ◌++◌, ◌==◌,
  list_eq, nat_eq, option_eq, if◌then◌else◌, ltb, leb, length, keep, is_some,
}
use aiot_powerguard.Prelude.Int.{ℤ, pos, negsuc}
use aiot_powerguard.Prelude.Result.{Result, done, refused, demand, ◌>>=◌, ◌>>◌}
use aiot_powerguard.Text.{Text, codes}
use aiot_powerguard.Measure.{Floats}
use aiot_powerguard.Json.{
  Json, Items, Members, Builtins, Conversion, value, not_a_number, too_large, null, bool, int,
  float, str, array, object, nil, item, get, text_at,
}
use aiot_powerguard.Prepare.{max_seq_stride}
use aiot_powerguard.Features.{TrainedModel, window_size}
use aiot_powerguard.Detector.{Engine}

-- the refusals; `overflow_error` is an `OverflowError`, which is no `ArtifactError`
pub data ArtifactError : Type 0 where
  no_metadata not_json not_an_object legacy_artifact wrong_metadata_version : ArtifactError
  wrong_feature_version wrong_feature_order wrong_window bad_stride wrong_device : ArtifactError
  wrong_regime scores_not_a_list no_scores no_model_file checksum_differs : ArtifactError
  not_deserialised not_a_pipeline not_integer not_number overflow_error : ArtifactError
  metadata_missing : List Text → ArtifactError

pub data MetadataFile (F : Type 0) : Type 0 where
  absent malformed : MetadataFile F
  document : Json F → MetadataFile F

-- what `joblib.load` comes to
pub data Pickle (F : Type 0) : Type 0 where
  broken without_scores : Pickle F
  scoring : (List F → F) → Pickle F

pub record ArtifactFiles (F : Type 0) : Type 0 where
  pub metadata : MetadataFile F
  pub model_sha256 : Option Text
  pub model : Pickle F

abbrev pub feature_names : List Text
feature_names =
    codes "voltage_v"
    ∷ codes "current_a"
    ∷ codes "power_w"
    ∷ codes "delta_voltage_v"
    ∷ codes "delta_current_a"
    ∷ codes "delta_power_w"
    ∷ codes "mean_voltage_v"
    ∷ codes "mean_current_a"
    ∷ codes "mean_power_w"
    ∷ codes "std_voltage_v"
    ∷ codes "std_current_a"
    ∷ codes "std_power_w"
    ∷ codes "power_residual"
    ∷ []

abbrev pub required : List Text
required =
    codes "metadata_version"
    ∷ codes "model_version"
    ∷ codes "device_id"
    ∷ codes "feature_version"
    ∷ codes "feature_names"
    ∷ codes "window"
    ∷ codes "expected_seq_stride"
    ∷ codes "threshold"
    ∷ codes "calibration_scores"
    ∷ codes "model_sha256"
    ∷ []

abbrev pub check_complete : List Text → Result ArtifactError (Unit {0})
check_complete [] = done tt
check_complete (n ∷ ns) =
    if n ∷ ns == codes "expected_seq_stride" ∷ []
    then refused legacy_artifact
    else refused (metadata_missing (n ∷ ns))

abbrev pub file_present : Option Text → Result ArtifactError Text
file_present none = refused no_model_file
file_present (some digest) = done digest

abbrev pub converted : {A : Type 0} → ArtifactError → Conversion A → Result ArtifactError A
converted e (value a) = done a
converted e not_a_number = refused e
converted e too_large = refused overflow_error

abbrev pub is_window : ℤ → Bool
is_window (pos n) = n == window_size
is_window (negsuc n) = false

-- a negative run bounds nothing, as zero does
abbrev pub at_least_zero : ℤ → ℕ
at_least_zero (pos n) = n
at_least_zero (negsuc n) = 0

module _ {F : Type 0} where
  -- `value == text`
  abbrev pub is_text : Option (Json F) → Text → Bool
  is_text (some (str s)) t = s == t
  is_text _ t = false

  abbrev pub same_names : Items F → List Text → Bool
  same_names nil [] = true
  same_names (item (str s) rest) (n ∷ names) = s == n && same_names rest names
  same_names _ _ = false

  abbrev pub is_names : Option (Json F) → Bool
  is_names (some (array items)) = same_names items feature_names
  is_names _ = false

  -- `stride_of`
  unfoldable pub stride_of : Members F → Result ArtifactError ℕ
  stride_of payload = elim (get (codes "expected_seq_stride") payload) [
    | some (int (pos n)) ↦ if leb 1 n && leb n max_seq_stride then done n else refused bad_stride
    | _ ↦ refused bad_stride
  ]

  abbrev pub missing : Members F → List Text
  missing payload = keep (λ name. not (is_some (get name payload))) required

  abbrev pub metadata_of : MetadataFile F → Result ArtifactError (Members F)
  metadata_of absent = refused no_metadata
  metadata_of malformed = refused not_json
  metadata_of (document (object payload)) = done payload
  metadata_of (document _) = refused not_an_object

  abbrev pub read_metadata : ArtifactFiles F → Result ArtifactError (Members F)
  read_metadata files = metadata_of files.metadata

  abbrev pub matches : Option Text → Option (Json F) → Bool
  matches none v = true
  matches (some t) v = is_text v t

  abbrev pub score_items : Option (Json F) → Result ArtifactError (Items F)
  score_items (some (array nil)) = refused no_scores
  score_items (some (array (item v rest))) = done (item v rest)
  score_items _ = refused scores_not_a_list

  abbrev pub pipeline_of : Pickle F → Result ArtifactError (List F → F)
  pipeline_of broken = refused not_deserialised
  pipeline_of without_scores = refused not_a_pipeline
  pipeline_of (scoring f) = done f

  -- a device that is a text and not empty
  abbrev pub owner_of : Option (Json F) → Option Text
  owner_of (some (str [])) = none
  owner_of (some (str (c ∷ s))) = some (c ∷ s)
  owner_of _ = none

module _ {F : Type 0} (py : Builtins F) where
  -- a bool and what is no number or text is refused before the conversion
  unfoldable pub as_int : Option (Json F) → Result ArtifactError ℤ
  as_int (some (int n)) = converted not_integer (py.int_of (int n))
  as_int (some (float f)) = converted not_integer (py.int_of (float f))
  as_int (some (str s)) = converted not_integer (py.int_of (str s))
  as_int _ = refused not_integer

  unfoldable pub as_float : Option (Json F) → Result ArtifactError F
  as_float (some (int n)) = converted not_number (py.float_of (int n))
  as_float (some (float f)) = converted not_number (py.float_of (float f))
  as_float (some (str s)) = converted not_number (py.float_of (str s))
  as_float _ = refused not_number

  unfoldable pub as_floats : Items F → Result ArtifactError (List F)
  as_floats nil = done []
  as_floats (item v rest) = do x ← as_float (some v); xs ← as_floats rest; done (x ∷ xs)

  -- `payload.get("consecutive", 2)`
  unfoldable pub consecutive_of : Members F → Result ArtifactError ℤ
  unfolding as_int
  consecutive_of payload = elim (get (codes "consecutive") payload) [
    | none ↦ done (pos 2)
    | some v ↦ as_int (some v)
  ]

  unfoldable pub validate :
      Members F → ArtifactFiles F → Option Text → Option Text → Result ArtifactError (Unit {0})
  unfolding as_int as_float as_floats consecutive_of
  validate payload files device_id calibration_fingerprint = do
    check_complete (missing payload)
    demand (is_text (get (codes "metadata_version") payload) (codes "powerguard_artifact_v1"))
        wrong_metadata_version
    demand (is_text (get (codes "feature_version") payload) (codes "powerguard_features_v1"))
        wrong_feature_version
    demand (is_names (get (codes "feature_names") payload)) wrong_feature_order
    window ← as_int (get (codes "window") payload)
    demand (is_window window) wrong_window
    stride ← stride_of payload
    threshold ← as_float (get (codes "threshold") payload)
    consecutive ← consecutive_of payload
    demand (matches device_id (get (codes "device_id") payload)) wrong_device
    demand (matches calibration_fingerprint (get (codes "calibration_fingerprint") payload))
        wrong_regime
    scores ← score_items (get (codes "calibration_scores") payload)
    numbers ← as_floats scores
    actual ← file_present files.model_sha256
    demand (is_text (get (codes "model_sha256") payload) actual) checksum_differs
