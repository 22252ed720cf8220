-- ===== src/Entities.antt =====
-- backend/src/powerguard/domain/entities.py: the records that the components exchange. A moment is
-- a number of microseconds of UTC; an id that the database has not given yet is `none`.
use aiot_powerguard.Prelude.{ℕ, Option, List, Eq, refl}
use aiot_powerguard.Text.{Text}

pub data DeviceStatus : Type 0 where
  online offline stale : DeviceStatus

DeviceStatus-discrete : Discrete DeviceStatus
DeviceStatus-discrete online online = yes refl
DeviceStatus-discrete online offline = no (λ e. cc)
DeviceStatus-discrete online stale = no (λ e. cc)
DeviceStatus-discrete offline online = no (λ e. cc)
DeviceStatus-discrete offline offline = yes refl
DeviceStatus-discrete offline stale = no (λ e. cc)
DeviceStatus-discrete stale online = no (λ e. cc)
DeviceStatus-discrete stale offline = no (λ e. cc)
DeviceStatus-discrete stale stale = yes refl

instance unfoldable pub status_eq : Eq DeviceStatus
unfolding DeviceStatus-discrete
status_eq = record { dec = DeviceStatus-discrete }

pub data AnomalyMethod : Type 0 where
  rule isolation_forest hybrid : AnomalyMethod

pub record Device : Type 0 where
  pub id : Text
  pub firmware_version : Text
  pub status : DeviceStatus
  pub first_seen_at : ℕ
  pub last_seen_at : ℕ
  pub last_boot_id : Option Text

pub record Telemetry (F : Type 0) : Type 0 where
  pub id : Option ℕ
  pub device_id : Text
  pub boot_id : Text
  pub seq : ℕ
  pub received_at : ℕ
  pub voltage_v : F
  pub current_a : F
  pub power_w : F
  pub energy_wh : F
  pub sensor_status : Text
  pub sampled_at : Option ℕ

pub record Anomaly (F : Type 0) : Type 0 where
  pub id : Option ℕ
  pub telemetry_id : ℕ
  pub device_id : Text
  pub detected_at : ℕ
  pub method : AnomalyMethod
  pub reasons : List Text
  pub score : Option F
  pub model_version : Option Text

pub record AnomalyVerdict (F : Type 0) : Type 0 where
  pub method : AnomalyMethod
  pub reasons : List Text
  pub score : Option F
  pub model_version : Option Text

pub data Stored (F : Type 0) : Type 0 where
  inserted : Telemetry F → Stored F
  duplicate : ℕ → Stored F

-- a page of newest-first rows
pub record Page {ℓ} (A : Type ℓ) : Type ℓ where
  pub items : List A
  pub next_before_id : Option ℕ
