-- ===== src/Inference/Shadow.antt =====
-- The shadow engine over a stream of readings, and as the engine of the ingestion.
use aiot_powerguard.Prelude.{ℕ, ◌+◌, ◌≡◌, refl, List, [], ◌∷◌, length, arith, none}
use aiot_powerguard.Entities.{Telemetry}
use aiot_powerguard.Store.{Database, returns}
use aiot_powerguard.Ingestion.{Evaluation, positive, nothing, fails, Service, maybe_record_anomaly}
use aiot_powerguard.Inference.{ShadowCounters, shadow_evaluate, shadow_is_ready}

-- the readings of a stream, one after the other
unfoldable pub shadow_all :
    {F : Type 0}
    → (Telemetry F → Evaluation F)
    → List (Telemetry F)
    → ShadowCounters
    → ShadowCounters
shadow_all engine [] c = c
shadow_all engine (t ∷ ts) c = shadow_all engine ts (shadow_evaluate engine t c).0

abbrev pub flags : {F : Type 0} → Evaluation F → ℕ
flags (positive _) = 1
flags nothing = 0
flags fails = 0

abbrev pub failures : {F : Type 0} → Evaluation F → ℕ
failures (positive _) = 0
failures nothing = 0
failures fails = 1

abbrev pub sum : {A : Type 0} → (A → ℕ) → List A → ℕ
sum f [] = 0
sum f (x ∷ xs) = f x + sum f xs

module _ {F : Type 0} where
  shadow_step :
      (engine : Telemetry F → Evaluation F) (t : Telemetry F) (c : ShadowCounters)
      → ((shadow_evaluate engine t c).0.evaluated ≡ c.evaluated + 1)
        × ((shadow_evaluate engine t c).0.would_flag ≡ c.would_flag + flags (engine t))
        × ((shadow_evaluate engine t c).0.errors ≡ c.errors + failures (engine t))
  unfolding shadow_evaluate
  shadow_step engine t c = ground arith

  -- Over any stream the shadow counters grow by the number of readings, of the verdicts that the
  -- wrapped engine would have given, and of its exceptions.
  pub shadow_all_lem :
      (engine : Telemetry F → Evaluation F) (ts : List (Telemetry F)) (c : ShadowCounters)
      → ((shadow_all engine ts c).evaluated ≡ c.evaluated + length ts)
        × ((shadow_all engine ts c).would_flag ≡ c.would_flag + sum (λ t. flags (engine t)) ts)
        × ((shadow_all engine ts c).errors ≡ c.errors + sum (λ t. failures (engine t)) ts)
  unfolding shadow_all
  shadow_all_lem engine [] c = (omega arith, omega arith, omega arith)
  shadow_all_lem engine (t ∷ ts) c =
      let (evaluated, flagged, failed) = shadow_all_lem engine ts (shadow_evaluate engine t c).0 in
      let (e, f, x) = shadow_step engine t c in
      (omega (arith, evaluated, e), omega (arith, flagged, f), omega (arith, failed, x))

  pub shadow_evaluate-nothing :
      (engine : Telemetry F → Evaluation F) (t : Telemetry F) (c : ShadowCounters)
      → (shadow_evaluate engine t c).1 ≡ nothing
  unfolding shadow_evaluate
  shadow_evaluate-nothing engine t c = ground arith

  -- With the shadow engine the ingestion stores no anomaly, whatever the wrapped engine does: only
  -- the counter of unavailable inference changes.
  pub maybe_record_anomaly-shadow :
      {S R P : Type 0} (db : Database F S R) (engine : Telemetry F → Evaluation F)
      (c : ShadowCounters) (now : ℕ) (t : Telemetry F) (v : Service S P)
      → maybe_record_anomaly db
          (record {
            evaluate = λ t. (shadow_evaluate engine t c).1;
            is_ready = shadow_is_ready;
            now = now;
          })
          t
          v
        ≡ (
          record v {
            counters = record v.counters {
              inference_unavailable = v.counters.inference_unavailable + 1;
            };
          },
          returns none,
        )
  unfolding maybe_record_anomaly
  maybe_record_anomaly-shadow db engine c now t v = rw (shadow_evaluate-nothing engine t c) refl
