-- ===== src/Inference/Loader.antt =====
-- backend/src/powerguard/inference/loader.py: whether a model is loaded, and in which mode. The
-- optional package that reads an artifact is a parameter; each of its calls may refuse, as it is
-- documented to, or raise something else.
use aiot_powerguard.Prelude.{
  Bool, not, ◌&&◌, Option, none, some, [], ◌∷◌, ◌==◌, list_eq, nat_eq, option_eq, if◌then◌else◌,
}
use aiot_powerguard.Text.{Text, codes}
use aiot_powerguard.Entities.{Telemetry}
use aiot_powerguard.Ingestion.{Evaluation}
use aiot_powerguard.Inference.{ShadowCounters, shadow_evaluate, unavailable_evaluate}

pub record InferenceSettings : Type 0 where
  pub enabled : Bool
  pub artifact_dir : Option Text
  pub device_id : Option Text
  pub calibration_fingerprint : Option Text
  -- `inference_mode` is `active`
  pub asks_active : Bool
  pub require_validated : Bool

pub data Attempt {ℓ} (A : Type ℓ) : Type ℓ where
  succeeds : A → Attempt A
  refuses crashes : Attempt A

-- The calls of the optional package, for a directory, a device and a fingerprint.
pub record Artifacts (F : Type 0) : Type 0 where
  pub is_dir : Text → Bool
  pub is_installed : Bool
  -- `read_metadata` and `validate`; the `data_quality` of the metadata
  pub metadata : Text → Text → Text → Attempt (Option Text)
  -- `IsolationForestInference(...)`; `none` where it is not ready
  pub engine : Text → Text → Text → Attempt (Option (Telemetry F → Evaluation F))

pub data Engine (F : Type 0) : Type 0 where
  without_model : Engine F
  directly : (Telemetry F → Evaluation F) → Engine F
  in_shadow : (Telemetry F → Evaluation F) → Engine F

pub data Mode : Type 0 where
  is_active is_shadow is_unavailable : Mode

pub record InferenceLoad (F : Type 0) : Type 0 where
  pub engine : Engine F
  pub mode : Mode
  pub data_quality : Option Text

abbrev pub validated_quality : Text
validated_quality = codes "validated_real_data"

module _ {F : Type 0} where
  -- `_unavailable`
  abbrev pub unavailable : InferenceLoad F
  unavailable = record { engine = without_model; mode = is_unavailable; data_quality = none }

  -- `InferenceEngine.evaluate` of what was loaded
  unfoldable pub evaluate_with : Engine F → ShadowCounters → Telemetry F → Evaluation F
  evaluate_with without_model c t = unavailable_evaluate t
  evaluate_with (directly run) c t = run t
  evaluate_with (in_shadow run) c t = (shadow_evaluate run t c).1

-- the text, if it is one that is not empty
abbrev pub filled : Option Text → Option Text
filled none = none
filled (some []) = none
filled (some (c ∷ s)) = some (c ∷ s)

module _ {F : Type 0} (settings : InferenceSettings) where
  unfoldable pub wire :
      Option Text → Attempt (Option (Telemetry F → Evaluation F)) → InferenceLoad F
  wire quality refuses = unavailable
  wire quality crashes = unavailable
  wire quality (succeeds none) = unavailable
  wire quality (succeeds (some run)) =
      if settings.asks_active && quality == some validated_quality
      then record { engine = directly run; mode = is_active; data_quality = quality }
      else record { engine = in_shadow run; mode = is_shadow; data_quality = quality }

module _ {F : Type 0} (settings : InferenceSettings) (artifacts : Artifacts F) where
  unfoldable pub after_metadata : Text → Text → Text → Attempt (Option Text) → InferenceLoad F
  unfolding wire
  after_metadata directory device_id fingerprint refuses = unavailable
  after_metadata directory device_id fingerprint crashes = unavailable
  after_metadata directory device_id fingerprint (succeeds quality) =
      if settings.require_validated && not (quality == some validated_quality)
      then unavailable
      else wire settings quality (artifacts.engine directory device_id fingerprint)

  unfoldable pub with_artifact : Option Text → Option Text → Option Text → InferenceLoad F
  unfolding after_metadata
  with_artifact (some directory) (some device_id) (some fingerprint) =
      if not (artifacts.is_dir directory)
      then unavailable
      else if not artifacts.is_installed
      then unavailable
      else after_metadata directory device_id fingerprint
          (artifacts.metadata directory device_id fingerprint)
  with_artifact none _ _ = unavailable
  with_artifact (some _) none _ = unavailable
  with_artifact (some _) (some _) none = unavailable

  -- `build_inference`
  unfoldable pub build_inference : InferenceLoad F
  unfolding with_artifact
  build_inference =
      if not settings.enabled
      then unavailable
      else with_artifact settings.artifact_dir (filled settings.device_id)
          (filled settings.calibration_fingerprint)
