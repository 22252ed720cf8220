-- ===== src/Detector.antt =====
-- ml/src/powerguard_ml/adapter.py: the engine that scores a live stream, one reading at a time. What
-- was loaded never changes; the buffers and the runs are its state.
pub mod Step
mod Matrix
mod Flags
pub mod Parity
mod Tests
use aiot_powerguard.Prelude.{
  ℕ, ◌+◌, Bool, true, false, not, ◌||◌, Option, none, some, List, [], ◌∷◌, ◌++◌, ◌==◌, list_eq,
  nat_eq, if◌then◌else◌, ltb, leb, last?, last_n, length, map,
}
use aiot_powerguard.Prelude.Dict.{Dict, lookup, insert, get_or}
use aiot_powerguard.Text.{Text, codes}
use aiot_powerguard.Measure.{Floats}
use aiot_powerguard.Entities.{Telemetry, isolation_forest}
use aiot_powerguard.Segments.{Ordered, linked}
use aiot_powerguard.Features.{Numpy, Measures, TrainedModel, window_vector, window_size, score}
use aiot_powerguard.Ingestion.{Evaluation, positive, nothing, fails}

-- The fields of `IsolationForestInference` that its constructor sets for good.
pub record Engine (F : Type 0) : Type 0 where
  pub model : Option (TrainedModel F)
  pub artifact_device_id : Text
  pub stride : ℕ
  -- the cadence times the tolerance, in microseconds
  pub gap : ℕ
  pub model_version : Text

pub record Buffers (F : Type 0) : Type 0 where
  pub buffers : Dict Text (List (Telemetry F))
  pub runs : Dict Text ℕ

abbrev pub no_buffers : {F : Type 0} → Buffers F
no_buffers = record { buffers = []; runs = [] }

abbrev pub ordered_of : {F : Type 0} → Telemetry F → Ordered
ordered_of t = record { boot_id = t.boot_id; seq = t.seq; received_at = t.received_at }

abbrev pub measures_of : {F : Type 0} → Telemetry F → Measures F
measures_of t = record { voltage_v = t.voltage_v; current_a = t.current_a; power_w = t.power_w }

-- a version that is not empty
abbrev pub or_none : Text → Option Text
or_none [] = none
or_none (c ∷ s) = some (c ∷ s)

module _ {F : Type 0} where
  -- `_reset`
  unfoldable pub reset : Text → Buffers F → Buffers F
  reset device_id s = record {
    buffers = elim (lookup device_id s.buffers) [
      | none ↦ s.buffers
      | some _ ↦ insert device_id [] s.buffers
    ];
    runs = insert device_id 0 s.runs;
  }

-- whether a reading was flagged
abbrev pub is_flag : {F : Type 0} → Evaluation F → Bool
is_flag (positive _) = true
is_flag nothing = false
is_flag fails = false

module _ {F : Type 0} (engine : Engine F) where
  -- the row does not continue the buffer
  abbrev pub is_broken : Option (Telemetry F) → Telemetry F → Bool
  is_broken none t = false
  is_broken (some p) t = not (linked ordered_of engine.stride engine.gap p t)

  -- `_buffer_for`, with the buffer that it returns
  unfoldable pub buffer_for : Telemetry F → Buffers F → Buffers F × List (Telemetry F)
  buffer_for t s = elim (lookup t.device_id s.buffers) [
    | none ↦ (record s { buffers = insert t.device_id [] s.buffers }, [])
    | some buffer ↦
        if is_broken (last? buffer) t
        then (
          record { buffers = insert t.device_id [] s.buffers; runs = insert t.device_id 0 s.runs },
          [],
        )
        else (s, buffer)
  ]

module _ {F : Type 0} (fl : Floats F) (np : Numpy F) (engine : Engine F)
    (model : TrainedModel F) where
  -- a full window with its score
  unfoldable pub judge : Text → F → Buffers F → Buffers F × Evaluation F
  judge device_id s b =
      if fl.lt s model.threshold
      then (record b { runs = insert device_id 0 b.runs }, nothing)
      else let run = get_or device_id 0 b.runs + 1 in
        (
          record b { runs = insert device_id run b.runs },
          if ltb run model.consecutive
              then nothing
              else positive (record {
                method = isolation_forest;
                reasons = codes "multivariate_outlier" ∷ [];
                score = some s;
                model_version = or_none engine.model_version;
              }),
        )

  -- after `buffer.append`
  unfoldable pub score_buffer : Text → List (Telemetry F) → Buffers F → Buffers F × Evaluation F
  unfolding judge
  score_buffer device_id buffer b =
      if ltb (length buffer) window_size
      then (b, nothing)
      else elim (window_vector fl np window_size (map measures_of buffer)) [
        | none ↦ (b, fails)
        | some vector ↦ judge device_id (score fl np model vector) b
      ]

  -- `buffer.append` on a deque of `window_size`, and what follows
  unfoldable pub append_row :
      Telemetry F → Buffers F × List (Telemetry F) → Buffers F × Evaluation F
  unfolding score_buffer
  append_row t (b, buffer) =
      let buffer' = last_n window_size (buffer ++ t ∷ []) in
      score_buffer t.device_id buffer' (record b { buffers = insert t.device_id buffer' b.buffers })

module _ {F : Type 0} (fl : Floats F) (np : Numpy F) (engine : Engine F) where
  unfoldable pub evaluate : Telemetry F → Buffers F → Buffers F × Evaluation F
  unfolding append_row buffer_for reset
  evaluate t b = elim (engine.model) [
    | none ↦ (b, nothing)
    | some model ↦
        if not (t.device_id == engine.artifact_device_id)
        then (b, nothing)
        else if not (t.sensor_status == codes "ok")
        then (reset t.device_id b, nothing)
        else append_row fl np engine model t (buffer_for engine t b)
  ]

  -- a stream of readings, with the verdict on each
  unfoldable pub evaluate_all : List (Telemetry F) → Buffers F → List (Evaluation F)
  evaluate_all [] b = []
  evaluate_all (t ∷ ts) b = let (b', e) = evaluate t b in e ∷ evaluate_all ts b'
