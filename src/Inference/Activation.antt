-- ===== src/Inference/Activation.antt =====
-- When a loaded engine can yield a verdict.
use aiot_powerguard.Prelude.{
  ◌≡◌, refl, true, Option, none, some, arith, list_eq, nat_eq, option_eq, ap, ◌∙◌,
}
use aiot_powerguard.Text.{Text}
use aiot_powerguard.Entities.{Telemetry, AnomalyVerdict}
use aiot_powerguard.Ingestion.{Evaluation, positive}
use aiot_powerguard.Inference.{ShadowCounters, unavailable_evaluate}
use aiot_powerguard.Inference.Shadow.{shadow_evaluate-nothing}
use aiot_powerguard.Inference.Loader.{
  InferenceSettings, Attempt, succeeds, refuses, crashes, Artifacts, InferenceLoad,
  validated_quality, filled, evaluate_with, wire, after_metadata, with_artifact, build_inference,
}

module _ {F : Type 0} (settings : InferenceSettings) (artifacts : Artifacts F) where
  -- The artifact that was activated.
  pub record IsActivated (t : Telemetry F) (verdict : AnomalyVerdict F) : Type 0 where
    pub directory : Text
    pub device_id : Text
    pub fingerprint : Text
    pub run : Telemetry F → Evaluation F
    pub enabled : settings.enabled ≡ true
    pub asked : settings.asks_active ≡ true
    pub named : settings.artifact_dir ≡ some directory
    pub device_named : filled settings.device_id ≡ some device_id
    pub regime_named : filled settings.calibration_fingerprint ≡ some fingerprint
    pub validated :
        artifacts.metadata directory device_id fingerprint ≡ succeeds (some validated_quality)
    pub ready : artifacts.engine directory device_id fingerprint ≡ succeeds (some run)
    pub same_verdict : run t ≡ positive verdict

  abbrev Yields : InferenceLoad F → ShadowCounters → Telemetry F → AnomalyVerdict F → Type 0
  Yields load c t verdict = evaluate_with load.engine c t ≡ positive verdict

  wire-Yields :
      (quality : Option Text) (a : Attempt (Option (Telemetry F → Evaluation F)))
      (c : ShadowCounters) (t : Telemetry F) (v : AnomalyVerdict F)
      → Yields (wire settings quality a) c t v
      → (settings.asks_active ≡ true)
        × (quality ≡ some validated_quality)
        × ((run : Telemetry F → Evaluation F) × (a ≡ succeeds (some run)) × (run t ≡ positive v))
  unfolding wire evaluate_with unavailable_evaluate
  wire-Yields quality refuses c t v h = cc
  wire-Yields quality crashes c t v h = cc
  wire-Yields quality (succeeds none) c t v h = cc
  wire-Yields quality (succeeds (some run)) c t v h =
      let never = shadow_evaluate-nothing run t c in
      (ground arith, ground arith, (run, refl, ground arith))

  after_metadata-Yields :
      (d i f : Text) (m : Attempt (Option Text)) (c : ShadowCounters) (t : Telemetry F)
      (v : AnomalyVerdict F)
      → artifacts.metadata d i f ≡ m
      → Yields (after_metadata settings artifacts d i f m) c t v
      → (settings.asks_active ≡ true)
        × (artifacts.metadata d i f ≡ succeeds (some validated_quality))
        × ((run : Telemetry F → Evaluation F) × (artifacts.engine d i f ≡ succeeds (some run))
            × (run t ≡ positive v))
  unfolding after_metadata evaluate_with unavailable_evaluate
  after_metadata-Yields d i f refuses c t v e h = cc
  after_metadata-Yields d i f crashes c t v e h = cc
  after_metadata-Yields d i f (succeeds quality) c t v e h =
      let (asks, valid, (run, ready, same)) =
        wire-Yields quality (artifacts.engine d i f) c t v (ground arith) in
      (asks, e ∙ ap succeeds valid, (run, ready, same))

  with_artifact-Yields :
      (directory device_id fingerprint : Option Text) (c : ShadowCounters) (t : Telemetry F)
      (v : AnomalyVerdict F)
      → settings.enabled ≡ true
      → settings.artifact_dir ≡ directory
      → filled settings.device_id ≡ device_id
      → filled settings.calibration_fingerprint ≡ fingerprint
      → Yields (with_artifact settings artifacts directory device_id fingerprint) c t v
      → IsActivated t v
  unfolding with_artifact evaluate_with unavailable_evaluate
  with_artifact-Yields none i f c t v on a b k h = absurd cc
  with_artifact-Yields (some d) none f c t v on a b k h = absurd cc
  with_artifact-Yields (some d) (some i) none c t v on a b k h = absurd cc
  with_artifact-Yields (some d) (some i) (some f) c t v on a b k h =
      let (asks, valid, (run, ready, same)) =
        after_metadata-Yields d i f (artifacts.metadata d i f) c t v refl (ground arith) in
      record {
        directory = d;
        device_id = i;
        fingerprint = f;
        run = run;
        enabled = on;
        asked = asks;
        named = a;
        device_named = b;
        regime_named = k;
        validated = valid;
        ready = ready;
        same_verdict = same;
      }

  -- The engine that startup wires yields a verdict only if inference is enabled and asked to be
  -- active, directory, device and calibration regime are named, the artifact's metadata was
  -- accepted as validated on real data, and its model is ready; the verdict is then the model's.
  pub build_inference-IsActivated :
      (c : ShadowCounters) (t : Telemetry F) (v : AnomalyVerdict F)
      → evaluate_with (build_inference settings artifacts).engine c t ≡ positive v
      → IsActivated t v
  unfolding build_inference evaluate_with unavailable_evaluate
  build_inference-IsActivated c t v h =
      with_artifact-Yields settings.artifact_dir (filled settings.device_id)
        (filled settings.calibration_fingerprint) c t v (ground arith) refl refl refl (ground arith)
