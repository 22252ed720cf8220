-- ===== src/Gate/Tests.antt =====
-- The smallest dataset that passes when one sample is enough: 128 rows without a hole and a fault.
use aiot_powerguard.Prelude.{ℕ, zero, suc, ◌+◌, ◌*◌, ◌-◌, true, some, List, [], ◌∷◌, ltb, leb}
use aiot_powerguard.Text.{Text, codes}
use aiot_powerguard.Measure.{Floats}
use aiot_powerguard.Dataset.{Sample}
use aiot_powerguard.Review.{Manifest}

abbrev fl : Floats ℕ
fl = record {
  le = leb;
  lt = ltb;
  mul = λ a b. a * b;
  sub = λ a b. a - b;
  abs = λ a. a;
  is_finite = λ _. true;
  of_int = λ _. 0;
  zero_f = 0;
  power_floor = 5;
}

abbrev device : Text
device = b'd' ∷ []

abbrev fingerprint : Text
fingerprint = b'r' ∷ []

abbrev boot : Text
boot = b'b' ∷ []

abbrev sample : ℕ → ℕ → Sample ℕ
sample n label = record {
  id = n;
  device_id = device;
  boot_id = boot;
  seq = n;
  received_at = 2 * n;
  voltage_v = 230;
  current_a = 1;
  power_w = 230;
  energy_wh = 0;
  sensor_status = codes "ok";
  label = some label;
  calibration_fingerprint = some fingerprint;
}

abbrev normal_samples : ℕ → ℕ → List (Sample ℕ)
normal_samples zero n = []
normal_samples (suc k) n = sample n 0 ∷ normal_samples k (n + 1)

abbrev samples : List (Sample ℕ)
samples = sample 0 1 ∷ normal_samples 128 1

abbrev manifest : Manifest ℕ
manifest = record {
  device_id = device;
  calibration_fingerprint = fingerprint;
  provenance = codes "hardware";
  reviewed_by = codes "an";
  reviewed_at = codes "now";
  approved_intervals = (record { start = 2; end = 500; label = 0; description = [] }) ∷ [];
  firmware_version = codes "1";
  shunt_resistance_ohm = 1;
  expected_seq_stride = 1;
  boot_ids = boot ∷ [];
  labelled_events = (record { start = 0; end = 2; label = 1; description = [] }) ∷ [];
  notes = [];
}

-- the split that leaves 49 rows
abbrev all_but_49 : ℕ → ℕ
all_but_49 n = n - 49
