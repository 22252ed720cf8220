-- ===== src/Prepare/Tests.antt =====
-- Six rows with a repeated id, a broken sensor and a hole.
use aiot_powerguard.Prelude.{
  ◌++◌, ℕ, ◌*◌, ◌-◌, ◌≡◌, refl, true, none, some, List, [], ◌∷◌, length, list_eq, option_eq,
  ℕ_discrete, ltb, leb, ◌/◌, ◌⊎◌, false,
}
use aiot_powerguard.Prelude.Int.{ℤ, pos, negsuc}
use aiot_powerguard.Prelude.Result.{done, refused}
use aiot_powerguard.Text.{Text, codes}
use aiot_powerguard.Measure.{Floats}
use aiot_powerguard.Segments.{cut, cut_from, is_contiguous}
use aiot_powerguard.Dataset.{Sample}
use aiot_powerguard.Prepare.{
  PreparedData, TimeSplit, bad_fraction, check_stride, distinct, of_device, check_device,
  check_regime, of_regime, named, sort, sort_in, dedupe, prepare_rows, prepare, time_split,
}
use aiot_powerguard.Prepare.Clean.{IsClean, prepare-IsClean}
use mathlib.Core.List.{Perm}
use aiot_powerguard.Prepare.Order.{Pairwise, IsBefore}
use aiot_powerguard.Prepare.Split.{time_split-Pairwise}
use aiot_powerguard.Prepare.Rows.{Account, prepare-counts_rows}

-- `int` of a product of two numbers of thousandths
abbrev whole : ℕ → ℕ
whole x = x / 1000000

abbrev thousandths : ℤ → ℕ
thousandths (pos n) = 1000 * n
thousandths (negsuc n) = 0

abbrev fl : Floats ℕ
fl = record {
  le = leb;
  lt = ltb;
  mul = λ a b. a * b;
  sub = λ a b. a - b;
  abs = λ a. a;
  is_finite = λ _. true;
  of_int = thousandths;
  zero_f = 0;
  power_floor = 5;
}

abbrev sample : ℕ → Text → Sample ℕ
sample n status = record {
  id = n;
  device_id = codes "plug-1";
  boot_id = codes "deadbeef";
  seq = n;
  received_at = 2 * n;
  voltage_v = 230;
  current_a = 1;
  power_w = 230;
  energy_wh = 0;
  sensor_status = status;
  label = none;
  calibration_fingerprint = some (codes "r1");
}

abbrev good : ℕ → Sample ℕ
good n = sample n (codes "ok")

abbrev rows : List (Sample ℕ)
rows = good 3 ∷ good 1 ∷ good 2 ∷ good 2 ∷ sample 4 (codes "bad") ∷ good 9 ∷ []

abbrev prepared : PreparedData ℕ
prepared = record {
  segments = (good 1 ∷ good 2 ∷ good 3 ∷ []) ∷ [];
  total_input = 6;
  dropped_sensor_status = 1;
  dropped_duplicate = 1;
  dropped_non_finite = 0;
  dropped_short_segments = 1;
}

prepares : prepare fl 2 3 none none 1 rows ≡ done prepared
unfolding prepare check_stride distinct of_device check_device check_regime of_regime named sort
    sort_in dedupe prepare_rows cut cut_from is_contiguous list_eq option_eq ℕ_discrete
prepares = refl

prepare-IsClean_example : IsClean fl 2 3 none none 1 prepared
prepare-IsClean_example = prepare-IsClean fl 2 3 none none 1 rows prepared prepares

prepare-counts_rows_example : Account fl 2 3 1 rows prepared
prepare-counts_rows_example = prepare-counts_rows fl 2 3 1 rows prepared prepares

abbrev four : List (Sample ℕ)
four = good 3 ∷ good 1 ∷ good 2 ∷ good 4 ∷ []

time_split-Pairwise_example :
    ((true ≡ false) × (time_split fl whole 800 four ≡ refused bad_fraction))
    ⊎ ((true ≡ true)
        × ((split : TimeSplit ℕ) × (time_split fl whole 800 four ≡ done split)
            × Perm (split.train ++ split.calibration) four
            × Pairwise IsBefore (split.train ++ split.calibration)
            × (length split.train ≡ 3)))
time_split-Pairwise_example = time_split-Pairwise fl whole 800 four

last_row :
    time_split fl whole 800 four
    ≡ done (record { train = good 1 ∷ good 2 ∷ good 3 ∷ []; calibration = good 4 ∷ [] })
unfolding time_split sort sort_in ℕ_discrete
last_row = refl

whole_refused : time_split fl whole 1000 four ≡ refused bad_fraction
unfolding time_split
whole_refused = refl
