-- ===== src/Payload/Sound.antt =====
-- What an accepted payload is known to satisfy.
use aiot_powerguard.Prelude.{
  ◌≤◌, ◌≡◌, Bool, true, false, not, ◌&&◌, Option, none, some, List, [], ◌∷◌, arith, All, contains,
  leb, list_eq, nat_eq,
}
use aiot_powerguard.Prelude.Int.{pos}
use aiot_powerguard.Prelude.Dict.{Dict}
use aiot_powerguard.Text.{Text, codes}
use aiot_powerguard.Measure.{Floats}
use aiot_powerguard.Payload.{
  Value, int, str, Calendar, Checked, good, bad, field, TelemetryPayload, telemetry_fields,
  telemetry_model, boot_id_ok, firmware_version_ok, sampled_at_ok, seq_max, forbid_extra,
  check_energy, check_number, check_seq, validate_boot_id, validate_firmware_version,
  check_sensor_status,
}

-- The test holds of the value, if there is one.
abbrev passes : {A : Type 0} → (A → Bool) → Checked A → Bool
passes p (good a) = p a
passes p (bad _) = true

module _ {F : Type 0} (cal : Calendar) (fl : Floats F) where
  abbrev SampledAtOk : Option Text → Type 0
  SampledAtOk none = Unit
  SampledAtOk (some s) = sampled_at_ok cal s ≡ true

  pub record IsSound (d : Dict Text (Value F)) (p : TelemetryPayload F) : Type 0 where
    pub version : field (codes "schema_version") d ≡ good (int (pos 1))
    pub boot_id : boot_id_ok p.boot_id ≡ true
    pub seq : p.seq ≤ seq_max
    pub voltage_finite : fl.is_finite p.voltage_v ≡ true
    pub current_finite : fl.is_finite p.current_a ≡ true
    pub power_finite : fl.is_finite p.power_w ≡ true
    pub energy_finite : fl.is_finite p.energy_wh ≡ true
    pub energy_sign : fl.lt p.energy_wh fl.zero_f ≡ false
    pub sensor : field (codes "sensor_status") d ≡ good (str (codes "ok"))
    pub firmware : firmware_version_ok cal p.firmware_version ≡ true
    pub known : All (λ e. contains telemetry_fields e.0 ≡ true) d

  passes-boot_id : (v : Value F) → passes boot_id_ok (validate_boot_id v) ≡ true
  unfolding validate_boot_id
  passes-boot_id v = ground arith

  passes-seq : (v : Value F) → passes (λ n. leb n seq_max) (check_seq v) ≡ true
  unfolding check_seq
  passes-seq v = ground arith

  passes-firmware :
      (v : Value F) → passes (firmware_version_ok cal) (validate_firmware_version cal v) ≡ true
  unfolding validate_firmware_version
  passes-firmware v = ground arith

  passes-number : (k : Text) (v : Value F) → passes fl.is_finite (check_number fl k v) ≡ true
  unfolding check_number
  passes-number k v = ground arith

  passes-energy :
      (v : Value F)
      → passes (λ x. fl.is_finite x && not (fl.lt x fl.zero_f)) (check_energy fl v) ≡ true
  unfolding check_energy
  passes-energy v = ground arith

  forbid_extra-known :
      (known : List Text) (d : Dict Text (Value F)) (u : Unit {0})
      → forbid_extra known d ≡ good u
      → All (λ e. contains known e.0 ≡ true) d
  unfolding forbid_extra
  forbid_extra-known known [] u h = tt
  forbid_extra-known known ((k, v) ∷ d) u h = ground (arith, forbid_extra-known known d u)

  -- An accepted document has schema version 1, sensor status `ok` and no unknown field; the payload
  -- built from it has a well-formed boot id and firmware version, a sequence number within 32
  -- bits, finite measurements and an energy that is not negative.
  pub telemetry_model-IsSound :
      (d : Dict Text (Value F)) (p : TelemetryPayload F)
      → telemetry_model cal fl d ≡ good p
      → IsSound d p
  unfolding telemetry_model check_sensor_status
  telemetry_model-IsSound d p h = grind (
    arith,
    passes-boot_id,
    passes-seq,
    passes-firmware,
    passes-number,
    passes-energy,
    forbid_extra-known telemetry_fields d tt,
  )
