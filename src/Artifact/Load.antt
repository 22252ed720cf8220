-- ===== src/Artifact/Load.antt =====
-- ml/src/powerguard_ml/artifact.py and adapter.py: loading an artifact, and the engine that the
-- adapter starts with. `sort` is `np.sort`, `gap` the cadence times the tolerance, in microseconds.
use aiot_powerguard.Prelude.{ℕ, Option, none, some, List, [], ◌∷◌, list_eq, nat_eq}
use aiot_powerguard.Prelude.Result.{Result, done, refused, ◌>>=◌, ◌>>◌}
use aiot_powerguard.Text.{Text, codes}
use aiot_powerguard.Json.{Members, Builtins, get, text_at}
use aiot_powerguard.Features.{TrainedModel}
use aiot_powerguard.Detector.{Engine}
use aiot_powerguard.Artifact.{
  ArtifactError, ArtifactFiles, overflow_error, read_metadata, validate, pipeline_of, score_items,
  as_float, as_floats, consecutive_of, at_least_zero, stride_of, owner_of,
}

module _ {F : Type 0} (py : Builtins F) (sort : List F → List F) where
  unfoldable pub load :
      ArtifactFiles F
      → Option Text
      → Option Text
      → Result ArtifactError (TrainedModel F × Members F)
  unfolding validate as_float as_floats consecutive_of
  load files device_id calibration_fingerprint = do
    payload ← read_metadata files
    validate py payload files device_id calibration_fingerprint
    score_samples ← pipeline_of files.model
    scores ← score_items (get (codes "calibration_scores") payload)
    numbers ← as_floats py scores
    threshold ← as_float py (get (codes "threshold") payload)
    consecutive ← consecutive_of py payload
    done (
      record {
        score_samples = score_samples;
        calibration_scores = sort numbers;
        threshold = threshold;
        consecutive = at_least_zero consecutive;
      },
      payload,
    )

module _ {F : Type 0} (gap : ℕ) where
  abbrev pub unavailable : Option Text → Engine F
  unavailable version = record {
    model = none;
    artifact_device_id = [];
    stride = 0;
    gap = gap;
    model_version = elim version [ none ↦ [] | some v ↦ v ];
  }

module _ {F : Type 0} (py : Builtins F) (gap : ℕ) where
  -- `model_version or str(metadata.get("model_version", ""))`
  abbrev pub version_of : Option Text → Members F → Text
  version_of (some (c ∷ s)) payload = c ∷ s
  version_of _ payload = text_at py (codes "model_version") payload

  -- the constructor once `load` returned
  unfoldable pub adopt : Option Text → TrainedModel F × Members F → Result ArtifactError (Engine F)
  adopt version (model, payload) = elim (owner_of (get (codes "device_id") payload)) [
    | none ↦ done (unavailable gap version)
    | some owner ↦ do
      stride ← stride_of payload
      done (record {
        model = some model;
        artifact_device_id = owner;
        stride = stride;
        gap = gap;
        model_version = version_of version payload;
      })
  ]

  -- what `except (ArtifactError, OSError)` makes of the call of `load`
  abbrev pub caught :
      Option Text
      → Result ArtifactError (TrainedModel F × Members F)
      → Result ArtifactError (Engine F)
  caught version (done loaded) = adopt version loaded
  caught version (refused overflow_error) = refused overflow_error
  caught version (refused _) = done (unavailable gap version)

module _ {F : Type 0} (py : Builtins F) (sort : List F → List F) (gap : ℕ) where
  -- `IsolationForestInference(...)`; what it refuses with passes through
  unfoldable pub start :
      Option (ArtifactFiles F)
      → Option Text
      → Option Text
      → Option Text
      → Result ArtifactError (Engine F)
  unfolding load adopt
  start none device_id calibration_fingerprint version = done (unavailable gap version)
  start (some files) device_id calibration_fingerprint version =
      caught py gap version (load py sort files device_id calibration_fingerprint)
