-- ===== src/Inference/Tests.antt =====
-- The loader at concrete inputs.
use aiot_powerguard.Prelude.{
  ℕ, ◌≡◌, refl, true, false, some, none, [], Option, list_eq, option_eq, ℕ_discrete,
}
use aiot_powerguard.Text.{Text, codes}
use aiot_powerguard.Entities.{Telemetry, AnomalyVerdict, isolation_forest}
use aiot_powerguard.Ingestion.{positive}
use aiot_powerguard.Inference.{ShadowCounters}
use aiot_powerguard.Inference.Loader.{
  InferenceSettings, Artifacts, succeeds, is_shadow, validated_quality, evaluate_with, wire,
  after_metadata, with_artifact, build_inference,
}
use aiot_powerguard.Inference.Activation.{IsActivated, build_inference-IsActivated}

abbrev settings : InferenceSettings
settings = record {
  enabled = true;
  artifact_dir = some (codes "models/m1");
  device_id = some (codes "m1");
  calibration_fingerprint = some (codes "c0ffee");
  asks_active = true;
  require_validated = true;
}

abbrev verdict : AnomalyVerdict ℕ
verdict = record { method = isolation_forest; reasons = []; score = some 1; model_version = none }

abbrev artifacts : Option Text → Artifacts ℕ
artifacts quality = record {
  is_dir = λ _. true;
  is_installed = true;
  metadata = λ _ _ _. succeeds quality;
  engine = λ _ _ _. succeeds (some (λ _. positive verdict));
}

abbrev reading : Telemetry ℕ
reading = record {
  id = some 1;
  device_id = codes "m1";
  boot_id = codes "deadbeef";
  seq = 7;
  received_at = 5;
  voltage_v = 12;
  current_a = 2;
  power_w = 24;
  energy_wh = 1;
  sensor_status = codes "ok";
  sampled_at = none;
}

abbrev no_counts : ShadowCounters
no_counts = record { evaluated = 0; would_flag = 0; errors = 0 }

activated :
    evaluate_with
      (build_inference settings (artifacts (some validated_quality))).engine
      no_counts
      reading
    ≡ positive verdict
unfolding evaluate_with build_inference with_artifact after_metadata wire list_eq option_eq
    ℕ_discrete
activated = refl

build_inference-IsActivated_example :
    IsActivated settings (artifacts (some validated_quality)) reading verdict
build_inference-IsActivated_example =
    build_inference-IsActivated settings (artifacts (some validated_quality)) no_counts reading
      verdict activated

-- Without the requirement, an artifact trained on synthetic data runs in shadow.
synthetic_in_shadow :
    (build_inference
      (record settings { require_validated = false })
      (artifacts (some (codes "synthetic")))).mode
    ≡ is_shadow
unfolding build_inference with_artifact after_metadata wire list_eq option_eq ℕ_discrete
synthetic_in_shadow = refl
