-- ===== src/Dataset.antt =====
-- ml/src/powerguard_ml/dataset.py: a row of a dataset. Ids and sequence numbers are those that the
-- database holds, moments are in microseconds.
use aiot_powerguard.Prelude.{ℕ, Option}
use aiot_powerguard.Text.{Text}
use aiot_powerguard.Segments.{Ordered}

pub record Sample (F : Type 0) : Type 0 where
  pub id : ℕ
  pub device_id : Text
  pub boot_id : Text
  pub seq : ℕ
  pub received_at : ℕ
  pub voltage_v : F
  pub current_a : F
  pub power_w : F
  pub energy_wh : F
  pub sensor_status : Text
  pub label : Option ℕ
  pub calibration_fingerprint : Option Text

abbrev pub sample_order : {F : Type 0} → Sample F → Ordered
sample_order s = record { boot_id = s.boot_id; seq = s.seq; received_at = s.received_at }
