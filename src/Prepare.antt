-- ===== src/Prepare.antt =====
-- ml/src/powerguard_ml/preprocess.py: from the rows of a dataset to the segments that a window may
-- span. What a call raises is a value of `Refusal`.
pub mod Order
pub mod Sets
pub mod Clean
pub mod Repeats
pub mod Rows
pub mod Split
mod Tests
use aiot_powerguard.Prelude.{
  ℕ, ◌+◌, ◌-◌, ◌*◌, Bool, true, false, not, ◌&&◌, ◌||◌, Option, none, some, List, [], ◌∷◌, ◌==◌,
  contains, list_eq, option_eq, nat_eq, if◌then◌else◌, ltb, leb, is_some, keep, length, map, take,
  drop,
}
use aiot_powerguard.Prelude.Int.{pos}
use aiot_powerguard.Prelude.Result.{Result, done, refused, demand, ◌>>=◌, ◌>>◌}
use aiot_powerguard.Text.{Text, codes}
use aiot_powerguard.Measure.{Floats}
use aiot_powerguard.Segments.{cut}
use aiot_powerguard.Dataset.{Sample, sample_order}

pub data Refusal : Type 0 where
  bad_stride bad_fraction several_devices several_regimes incomplete_regime : Refusal
  no_regime other_regime : Text → Refusal

abbrev pub max_seq_stride : ℕ
max_seq_stride = 8

-- `check_stride` of an integer
unfoldable pub check_stride : ℕ → Result Refusal (Unit {0})
check_stride value = demand (leb 1 value && leb value max_seq_stride) bad_stride

-- a set, as the list of its members
unfoldable pub distinct : List Text → List Text
distinct [] = []
distinct (x ∷ xs) = let rest = distinct xs in if contains rest x then rest else x ∷ rest

pub record PreparedData (F : Type 0) : Type 0 where
  pub segments : List (List (Sample F))
  pub total_input : ℕ
  pub dropped_sensor_status : ℕ
  pub dropped_duplicate : ℕ
  pub dropped_non_finite : ℕ
  pub dropped_short_segments : ℕ

-- the sum of the lengths
abbrev pub rows_in : {A : Type 0} → List (List A) → ℕ
rows_in [] = 0
rows_in (s ∷ ss) = length s + rows_in ss

-- the property `kept`
abbrev pub kept : {F : Type 0} → PreparedData F → ℕ
kept p = rows_in p.segments

-- the fingerprint of a row, empty of a row without one
abbrev pub fingerprint_of : Option Text → Text
fingerprint_of none = []
fingerprint_of (some f) = f

module _ {F : Type 0} where
  abbrev pub carries : Sample F → Bool
  carries row = leb 1 (length (fingerprint_of row.calibration_fingerprint))

  unfoldable pub named : List (Sample F) → List Text
  named rows =
      distinct (map (λ row. fingerprint_of row.calibration_fingerprint) (keep carries rows))

  abbrev pub unnamed : List (Sample F) → ℕ
  unnamed rows = length (keep (λ row. not (carries row)) rows)

  unfoldable pub of_device : Option Text → List (Sample F) → List (Sample F)
  of_device none rows = rows
  of_device (some d) rows = keep (λ row. row.device_id == d) rows

  unfoldable pub check_device : List (Sample F) → Result Refusal (Unit {0})
  check_device rows =
      demand (leb (length (distinct (map (λ row. row.device_id) rows))) 1) several_devices

  unfoldable pub check_regime : List (Sample F) → Result Refusal (Unit {0})
  check_regime rows = do
    demand (leb (length (named rows)) 1) several_regimes
    demand (not (leb 1 (length (named rows)) && leb 1 (unnamed rows))) incomplete_regime

  unfoldable pub of_regime : Option Text → List (Sample F) → Result Refusal (List (Sample F))
  of_regime none rows = done rows
  of_regime (some f) rows = do
    demand (leb 1 (length (named rows))) (no_regime f)
    demand (contains (named rows) f) (other_regime f)
    done (keep (λ row. row.calibration_fingerprint == some f) rows)

  -- the order of the keys `(received_at, id)`
  abbrev pub before : Sample F → Sample F → Bool
  before a b = ltb a.received_at b.received_at || (a.received_at == b.received_at && leb a.id b.id)

  -- `sort` by the keys: stable, each row goes in front of the first row that it may precede
  unfoldable pub sort_in : Sample F → List (Sample F) → List (Sample F)
  sort_in x [] = x ∷ []
  sort_in x (y ∷ ys) = let rest = sort_in x ys in if before x y then x ∷ y ∷ ys else y ∷ rest

  unfoldable pub sort : List (Sample F) → List (Sample F)
  sort [] = []
  sort (x ∷ xs) = sort_in x (sort xs)

  -- the loop with `seen`
  unfoldable pub dedupe : List ℕ → List (Sample F) → List (Sample F)
  dedupe seen [] = []
  dedupe seen (row ∷ rows) =
      let known = contains seen row.id in
      let rest = dedupe (if known then seen else row.id ∷ seen) rows in
      if known then rest else row ∷ rest

module _ {F : Type 0} (fl : Floats F) where
  -- `_finite`
  abbrev pub finite : Sample F → Bool
  finite s =
      fl.is_finite s.voltage_v
      && (fl.is_finite s.current_a && (fl.is_finite s.power_w && fl.is_finite s.energy_wh))

  abbrev pub is_ok : Sample F → Bool
  is_ok s = s.sensor_status == codes "ok"

  abbrev pub usable : List (Sample F) → List (Sample F)
  usable rows = keep is_ok rows

  abbrev pub finite_rows : List (Sample F) → List (Sample F)
  finite_rows rows = keep finite (usable rows)

  abbrev pub deduped : List (Sample F) → List (Sample F)
  deduped rows = dedupe [] (sort (finite_rows rows))

  -- `prepare` after the checks: the filters, the order, the cut and the counts
  unfoldable pub prepare_rows : ℕ → ℕ → ℕ → ℕ → List (Sample F) → PreparedData F
  prepare_rows window stride gap total rows =
      let segments = cut sample_order stride gap (deduped rows) in
      let long_enough = keep (λ s. leb window (length s)) segments in
      record {
        segments = long_enough;
        total_input = total;
        dropped_sensor_status = length rows - length (usable rows);
        dropped_duplicate = length (sort (finite_rows rows)) - length (deduped rows);
        dropped_non_finite = length (usable rows) - length (finite_rows rows);
        dropped_short_segments = length segments - length long_enough;
      }

  unfoldable pub prepare :
      ℕ → ℕ → Option Text → Option Text → ℕ → List (Sample F) → Result Refusal (PreparedData F)
  unfolding prepare_rows
  prepare window gap device_id calibration_fingerprint stride samples = do
    check_stride stride
    let rows = of_device device_id samples
    check_device rows
    check_regime rows
    regime ← of_regime calibration_fingerprint rows
    done (prepare_rows window stride gap (length samples) regime)

pub record TimeSplit (F : Type 0) : Type 0 where
  pub train : List (Sample F)
  pub calibration : List (Sample F)

-- `time_split`; `truncated` is the `int` of a product that is not negative
unfoldable pub time_split :
    {F : Type 0} → Floats F → (F → ℕ) → F → List (Sample F) → Result Refusal (TimeSplit F)
time_split fl truncated train_fraction rows = do
  demand (fl.lt fl.zero_f train_fraction && fl.lt train_fraction (fl.of_int (pos 1))) bad_fraction
  let ordered = sort rows
  let at = truncated (fl.mul (fl.of_int (pos (length ordered))) train_fraction)
  done (record { train = take at ordered; calibration = drop at ordered })
