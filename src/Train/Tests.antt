-- ===== src/Train/Tests.antt =====
-- A promoted run: 128 rows without a hole in an approved interval, and a fault before it.
use aiot_powerguard.Prelude.{
  ℕ, zero, suc, ◌+◌, ◌*◌, ◌-◌, ◌≡◌, refl, Bool, true, false, none, some, List, [], ◌∷◌, list_eq,
  option_eq, ℕ_discrete, ltb, leb, arith, ◌/◌,
}
use aiot_powerguard.Prelude.Int.{ℤ, pos, negsuc}
use aiot_powerguard.Text.{Text, codes}
use aiot_powerguard.Measure.{Floats}
use aiot_powerguard.Segments.{cut, cut_from, is_contiguous}
use aiot_powerguard.Dataset.{Sample}
use aiot_powerguard.Features.{windows}
use aiot_powerguard.Prepare.{
  check_stride, distinct, of_device, check_device, check_regime, of_regime, named, sort, sort_in,
  dedupe, prepare_rows, prepare, time_split,
}
use aiot_powerguard.Review.{Manifest, hardware, covers, apply_manifest}
use aiot_powerguard.Gate.{
  evaluate_gate, gate_reasons, attestation_reasons, identity_reasons, witness_reasons,
  window_reasons, prepared_of,
}
use aiot_powerguard.Gate.Passed.{IsPromotable}
use aiot_powerguard.Train.{
  Source, synthetic, dataset, Arguments, Metadata, writes, exits, validated, is_synthetic, rows_of,
  fit, train_prepared, train_on, main,
}
use aiot_powerguard.Train.Promoted.{main-IsPromotable}

-- the split that leaves 49 rows
abbrev all_but_49 : ℕ → ℕ
all_but_49 n = n - 49

-- `int` of a product of two numbers of thousandths
abbrev whole : ℕ → ℕ
whole x = x / 1000000

abbrev thousandths : ℤ → ℕ
thousandths (pos n) = 1000 * n
thousandths (negsuc n) = 0

abbrev fl : Floats ℕ
fl = record {
  le = leb;
  lt = ltb;
  mul = λ a b. a * b;
  sub = λ a b. a - b;
  abs = λ a. a;
  is_finite = λ _. true;
  of_int = thousandths;
  zero_f = 0;
  power_floor = 5;
}

abbrev device : Text
device = b'd' ∷ []

abbrev fingerprint : Text
fingerprint = b'r' ∷ []

abbrev boot : Text
boot = b'b' ∷ []

abbrev sample : ℕ → Sample ℕ
sample n = record {
  id = n;
  device_id = device;
  boot_id = boot;
  seq = n;
  received_at = 2 * n;
  voltage_v = 230;
  current_a = 1;
  power_w = 230;
  energy_wh = 0;
  sensor_status = codes "ok";
  label = none;
  calibration_fingerprint = none;
}

abbrev normal_samples : ℕ → ℕ → List (Sample ℕ)
normal_samples zero n = []
normal_samples (suc k) n = sample n ∷ normal_samples k (n + 1)

abbrev samples : List (Sample ℕ)
samples = sample 0 ∷ normal_samples 128 1

abbrev manifest : Manifest ℕ
manifest = record {
  device_id = device;
  calibration_fingerprint = fingerprint;
  provenance = codes "hardware";
  reviewed_by = codes "an";
  reviewed_at = codes "now";
  approved_intervals = (record { start = 2; end = 500; label = 0; description = [] }) ∷ [];
  firmware_version = codes "1";
  shunt_resistance_ohm = 1;
  expected_seq_stride = 1;
  boot_ids = boot ∷ [];
  labelled_events = (record { start = 0; end = 2; label = 1; description = [] }) ∷ [];
  notes = [];
}

abbrev arguments : Bool → Source ℕ → Arguments ℕ
arguments promote source = record {
  source = source;
  manifest = some manifest;
  promote = promote;
  device_id = none;
  calibration_fingerprint = none;
  threshold = 99;
  consecutive = 2;
  train_fraction = 620;
  model_version = codes "m1";
}

abbrev artifact : Metadata ℕ
artifact = record {
  model_version = codes "m1";
  device_id = device;
  expected_seq_stride = 1;
  threshold = 99;
  consecutive = 2;
  training_samples = 79;
  training_windows = 50;
  calibration_windows = 20;
  calibration_fingerprint = some fingerprint;
  data_quality = validated;
  data_provenance = hardware;
}

promotes : main fl 3 all_but_49 whole 1 (arguments true (dataset samples)) ≡ writes artifact
unfolding main rows_of apply_manifest covers train_on train_prepared fit time_split windows
    evaluate_gate gate_reasons attestation_reasons identity_reasons witness_reasons window_reasons
    prepared_of prepare check_stride distinct of_device check_device check_regime of_regime named
    sort sort_in dedupe prepare_rows cut cut_from is_contiguous list_eq option_eq ℕ_discrete
promotes = refl

-- generated rows are refused before the gate
synthetic_refused : main fl 3 all_but_49 whole 1 (arguments true (synthetic samples)) ≡ exits 3
unfolding main
synthetic_refused = refl

main-IsPromotable_example :
    (true ≡ true)
    × (is_synthetic (dataset samples) ≡ false)
    × ((m : Manifest ℕ) × (some manifest ≡ some m)
        × IsPromotable fl 3 all_but_49 1 m (rows_of (dataset samples) (some manifest))
        × (hardware ≡ hardware)
        × (1 ≡ m.expected_seq_stride))
main-IsPromotable_example =
    main-IsPromotable fl 3 all_but_49 whole 1 (arguments true (dataset samples)) artifact
      (omega arith) promotes refl
