-- ===== src/Settings.antt =====
-- backend/src/powerguard/config.py: the settings that the modelled components read. Times are in
-- microseconds, as `datetime` counts them.
use aiot_powerguard.Prelude.{ℕ, Bool}

pub record Settings (F : Type 0) : Type 0 where
  pub max_payload_bytes : ℕ
  pub min_voltage_v : F
  pub max_voltage_v : F
  pub max_abs_current_a : F
  pub max_abs_power_w : F
  pub power_rel_tolerance : F
  pub mqtt_ingress_queue_size : ℕ
  pub ws_max_connections : ℕ
  pub ws_queue_size : ℕ
  pub stale_after : ℕ
  pub mqtt_enabled : Bool
