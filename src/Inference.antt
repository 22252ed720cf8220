-- ===== src/Inference.antt =====
-- backend/src/powerguard/inference/shadow.py and unavailable.py: the engines that never produce a
-- verdict.
pub mod Shadow
pub mod Loader
pub mod Activation
mod Tests
use aiot_powerguard.Prelude.{ℕ, ◌+◌, Bool, true, false, Option, none, some}
use aiot_powerguard.Entities.{Telemetry}
use aiot_powerguard.Ingestion.{Evaluation, positive, nothing, fails}

pub record ShadowCounters : Type 0 where
  pub evaluated : ℕ
  pub would_flag : ℕ
  pub errors : ℕ

-- `ShadowInference`: the counters after an evaluation by the wrapped engine, and the result
unfoldable pub shadow_evaluate :
    {F : Type 0}
    → (Telemetry F → Evaluation F)
    → Telemetry F
    → ShadowCounters
    → ShadowCounters × Evaluation F
shadow_evaluate engine t c =
    let seen = record c { evaluated = c.evaluated + 1 } in
    elim (engine t) [
      | fails ↦ (record seen { errors = seen.errors + 1 }, nothing)
      | nothing ↦ (seen, nothing)
      | positive _ ↦ (record seen { would_flag = seen.would_flag + 1 }, nothing)
    ]

-- `ShadowInference.readiness`
abbrev pub shadow_is_ready : Bool
shadow_is_ready = false

unfoldable pub unavailable_evaluate : {F : Type 0} → Telemetry F → Evaluation F
unavailable_evaluate t = nothing
