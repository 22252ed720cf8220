-- ===== src/Features.antt =====
-- ml/src/powerguard_ml/features.py and model.py: the vector of a window, the windows of a segment,
-- the score of a vector and the flags of a matrix. What NumPy and scikit-learn compute is a
-- parameter.
pub mod Windows
use aiot_powerguard.Prelude.{
  ℕ, ◌+◌, ◌-◌, Bool, true, false, Option, none, some, List, [], ◌∷◌, ◌++◌, if◌then◌else◌, ltb, leb,
  length, take, last_n, map,
}
use aiot_powerguard.Prelude.Partial.{◌>>=◌}
use aiot_powerguard.Measure.{Floats}

-- `numpy` on lists of floats: `mean`, `std`, `searchsorted(..., side="right")` and the quotient of
-- two counts.
pub record Numpy (F : Type 0) : Type 0 where
  pub mean : List F → F
  pub std : List F → F
  pub neg : F → F
  pub searchsorted : List F → F → ℕ
  pub fraction : ℕ → ℕ → F

-- what a vector reads of a row
pub record Measures (F : Type 0) : Type 0 where
  pub voltage_v : F
  pub current_a : F
  pub power_w : F

abbrev pub window_size : ℕ
window_size = 30

module _ {F : Type 0} (fl : Floats F) (np : Numpy F) where
  open fl use {sub, mul, abs}
  open np use {mean, std}

  abbrev pub vector_of : List (Measures F) → Measures F → Measures F → List F
  vector_of tail latest previous =
      latest.voltage_v
      ∷ latest.current_a
      ∷ latest.power_w
      ∷ sub latest.voltage_v previous.voltage_v
      ∷ sub latest.current_a previous.current_a
      ∷ sub latest.power_w previous.power_w
      ∷ mean (map (λ r. r.voltage_v) tail)
      ∷ mean (map (λ r. r.current_a) tail)
      ∷ mean (map (λ r. r.power_w) tail)
      ∷ std (map (λ r. r.voltage_v) tail)
      ∷ std (map (λ r. r.current_a) tail)
      ∷ std (map (λ r. r.power_w) tail)
      ∷ abs (sub latest.power_w (mul latest.voltage_v latest.current_a))
      ∷ []

  -- `tail[-1]` and `tail[-2]`; a shorter list raises an `IndexError`
  unfoldable pub from_ends : List (Measures F) → List (Measures F) → Option (List F)
  from_ends tail [] = none
  from_ends tail (r ∷ []) = none
  from_ends tail (previous ∷ latest ∷ []) = some (vector_of tail latest previous)
  from_ends tail (_ ∷ r ∷ s ∷ rows) = from_ends tail (r ∷ s ∷ rows)

  -- `window_vector`; `none` is `WindowUnavailable`
  unfoldable pub window_vector : ℕ → List (Measures F) → Option (List F)
  unfolding from_ends
  window_vector size rows =
      if ltb (length rows) size then none else from_ends (last_n size rows) (last_n size rows)

-- The slices of `segment_matrix`, from the oldest: `segment[i : i + size]` for every `i` that leaves
-- `size` rows. The rest of the list is `segment[i:]`.
unfoldable pub windows : {A : Type 0} → ℕ → List A → List (List A)
windows size [] = []
windows size (row ∷ rows) =
    let rest = windows size rows in
    if leb size (length rows + 1) then take size (row ∷ rows) ∷ rest else []

module _ {F : Type 0} (fl : Floats F) (np : Numpy F) where
  -- the vector of each window, in order
  unfoldable pub vectors : List (List (Measures F)) → Option (List (List F))
  vectors [] = some []
  vectors (w ∷ ws) = do v ← window_vector fl np window_size w; vs ← vectors ws; some (v ∷ vs)

  -- `segment_matrix`, the rows of its matrix
  unfoldable pub segment_matrix : List (Measures F) → Option (List (List F))
  segment_matrix segment = vectors (windows window_size segment)

-- `TrainedModel`, with the pipeline's `score_samples` as a function
pub record TrainedModel (F : Type 0) : Type 0 where
  pub score_samples : List F → F
  pub calibration_scores : List F
  pub threshold : F
  pub consecutive : ℕ

module _ {F : Type 0} (fl : Floats F) (np : Numpy F) where
  -- `-score_samples(x)`
  abbrev pub raw_score : TrainedModel F → List F → F
  raw_score model vector = np.neg (model.score_samples vector)

  -- `normalise` of one value
  unfoldable pub normalise : F → List F → F
  normalise raw [] = fl.zero_f
  normalise raw (c ∷ cs) = np.fraction (np.searchsorted (c ∷ cs) raw) (length (c ∷ cs))

  unfoldable pub score : TrainedModel F → List F → F
  score model vector = normalise (raw_score model vector) model.calibration_scores

-- the loop of `suppress` from a run on
unfoldable pub suppress_from : ℕ → ℕ → List Bool → List Bool
suppress_from consecutive run [] = []
suppress_from consecutive run (above ∷ rest) =
    let next = if above then run + 1 else 0 in
    leb consecutive next ∷ suppress_from consecutive next rest

unfoldable pub suppress : List Bool → ℕ → List Bool
suppress above consecutive = suppress_from consecutive 0 above

module _ {F : Type 0} (fl : Floats F) (np : Numpy F) where
  -- the method `flags`
  unfoldable pub flags : TrainedModel F → List (List F) → List Bool
  flags model matrix =
      suppress (map (λ vector. fl.le model.threshold (score fl np model vector)) matrix)
        model.consecutive
