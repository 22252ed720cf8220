-- ===== src/Detector/Tests.antt =====
-- An engine over whole numbers, and a stream of 34 readings with a gap after the first.
use aiot_powerguard.Prelude.{
  ℕ, zero, suc, ◌+◌, ◌-◌, ◌*◌, ◌≡◌, refl, true, not, none, some, List, [], ◌∷◌, length, keep, ltb,
  leb, map, All, arith, list_eq, ℕ_discrete,
}
use aiot_powerguard.Prelude.Int.{ℤ, pos, negsuc}
use aiot_powerguard.Prelude.Dict.{lookup, insert}
use aiot_powerguard.Text.{codes}
use aiot_powerguard.Measure.{Floats}
use aiot_powerguard.Entities.{Telemetry}
use aiot_powerguard.Segments.{is_contiguous, cut}
use aiot_powerguard.Segments.Cut.{concat}
use aiot_powerguard.Features.{Numpy, TrainedModel, window_vector, normalise, score}
use aiot_powerguard.Detector.{Engine, no_buffers, ordered_of, evaluate, evaluate_all, is_flag}
use aiot_powerguard.Detector.Parity.{evaluate_all-segments}
use aiot_powerguard.Detector.Flags.{IsUsable, train_flags}

abbrev natural : ℤ → ℕ
natural (pos n) = n
natural (negsuc n) = 0

abbrev fl : Floats ℕ
fl = record {
  le = leb;
  lt = ltb;
  mul = λ a b. a * b;
  sub = λ a b. a - b;
  abs = λ a. a;
  is_finite = λ _. true;
  of_int = natural;
  zero_f = 0;
  power_floor = 5;
}

abbrev first_of : List ℕ → ℕ
first_of [] = 0
first_of (x ∷ xs) = x

abbrev np : Numpy ℕ
np = record {
  mean = first_of;
  std = λ _. 0;
  neg = λ a. a;
  searchsorted = λ cs raw. length (keep (λ c. leb c raw) cs);
  fraction = λ a b. 100 * a - (b - b);
}

-- what is scored is the newest voltage
abbrev model : TrainedModel ℕ
model = record {
  score_samples = first_of;
  calibration_scores = 100 ∷ 225 ∷ [];
  threshold = 200;
  consecutive = 2;
}

abbrev engine : Engine ℕ
engine = record {
  model = some model;
  artifact_device_id = codes "plug-1";
  stride = 1;
  gap = 3;
  model_version = codes "1";
}

abbrev reading : ℕ → Telemetry ℕ
reading n = record {
  id = some n;
  device_id = codes "plug-1";
  boot_id = codes "deadbeef";
  seq = n;
  received_at = 2 * n;
  voltage_v = 230;
  current_a = 1;
  power_w = 230;
  energy_wh = 0;
  sensor_status = codes "ok";
  sampled_at = none;
}

abbrev readings : ℕ → ℕ → List (Telemetry ℕ)
readings zero n = []
readings (suc k) n = reading n ∷ readings k (n + 1)

abbrev stream : List (Telemetry ℕ)
stream = reading 0 ∷ readings 32 5

comparable : (v : List ℕ) → leb 200 (score fl np model v) ≡ not (ltb (score fl np model v) 200)
comparable v = ground arith

usable : (k n : ℕ) → All (IsUsable engine) (readings k n)
usable zero n = tt
usable (suc k) n = ((refl, refl), usable k (n + 1))

evaluate_all-segments_example :
    map is_flag (evaluate_all fl np engine stream no_buffers)
    ≡ concat (map (train_flags fl np model) (cut ordered_of 1 3 stream))
evaluate_all-segments_example =
    evaluate_all-segments fl np engine model comparable (omega arith) refl stream
      ((refl, refl), usable 32 5)

-- the reading that completes a second window is flagged, and no reading before it
second_window :
    keep (λ b. b) (map is_flag (evaluate_all fl np engine stream no_buffers)) ≡ true ∷ true ∷ []
unfolding evaluate_all evaluate list_eq ℕ_discrete lookup insert is_contiguous window_vector score
    normalise
second_window = refl
