-- ===== src/Review/Tests.antt =====
-- A manifest that approves one hour and labels one event.
use aiot_powerguard.Prelude.{
  ℕ, ◌*◌, ◌-◌, ◌≡◌, refl, true, Option, none, some, List, [], ◌∷◌, map, keep, list_eq, ℕ_discrete,
  ltb, leb, ◌==◌, nat_eq,
}
use aiot_powerguard.Prelude.Result.{done, refused}
use aiot_powerguard.Text.{Text, codes}
use aiot_powerguard.Measure.{Floats}
use aiot_powerguard.Json.{
  Json, Members, Builtins, Conversion, value, not_a_number, float, str, array, object, nil, item,
  empty, member, replace_z,
}
use aiot_powerguard.Dataset.{Sample}
use aiot_powerguard.Review.{
  Manifest, covers, parse_time, label_of, parse_interval, parse_intervals, stride_at, shunt_at,
  overlaps, apart, parse_manifest, apply_manifest, overlap,
}
use aiot_powerguard.Review.Attested.{IsAttested, parse_manifest-IsAttested}
use aiot_powerguard.Review.Approved.{is_approved, witnessed, apply_manifest-witnessed}

abbrev fl : Floats ℕ
fl = record {
  le = leb;
  lt = ltb;
  mul = λ a b. a * b;
  sub = λ a b. a - b;
  abs = λ a. a;
  is_finite = λ _. true;
  of_int = λ _. 0;
  zero_f = 0;
  power_floor = 5;
}

abbrev text_of : Json ℕ → Text
text_of (str s) = s
text_of _ = []

abbrev number_of : Json ℕ → Conversion ℕ
number_of (float f) = value f
number_of _ = not_a_number

-- a moment is written as one character, its number
abbrev moment_of : Text → Option (Option ℕ)
moment_of [] = none
moment_of (c ∷ []) = some (some c)
moment_of (c ∷ d ∷ s) = some none

abbrev py : Builtins ℕ
py = record {
  str_of = text_of;
  float_of = number_of;
  int_of = λ _. not_a_number;
  is_space = λ c. c == 32;
  equals = λ f n. f == n;
  fromisoformat = moment_of;
}

abbrev at : ℕ → Json ℕ
at n = str (n ∷ [])

abbrev span : ℕ → ℕ → Json ℕ
span a b = object (member (codes "from") (at a) (member (codes "to") (at b) empty))

abbrev payload : ℕ → Members ℕ
payload event_start = member (codes "manifest_version") (str (codes "powerguard_review_v1")) (
    member (codes "device_id") (str (codes "plug-1")) (
      member (codes "calibration_fingerprint") (str (codes "r1")) (
        member (codes "provenance") (str (codes "hardware")) (
          member (codes "reviewed_by") (str (codes "an")) (
            member (codes "reviewed_at") (str (codes "now")) (
              member (codes "firmware_version") (str (codes "1")) (
                member (codes "shunt_resistance_ohm") (float 1) (
                  member (codes "approved_intervals") (array (item (span 10 20) nil)) (
                    member (codes "labelled_events") (array (item (span event_start 30) nil))
                      empty)))))))))

abbrev manifest : Manifest ℕ
manifest = record {
  device_id = codes "plug-1";
  calibration_fingerprint = codes "r1";
  provenance = codes "hardware";
  reviewed_by = codes "an";
  reviewed_at = codes "now";
  approved_intervals = (record { start = 10; end = 20; label = 0; description = [] }) ∷ [];
  firmware_version = codes "1";
  shunt_resistance_ohm = 1;
  expected_seq_stride = 2;
  boot_ids = [];
  labelled_events = (record { start = 20; end = 30; label = 1; description = [] }) ∷ [];
  notes = [];
}

parses : parse_manifest fl py (payload 20) ≡ done manifest
unfolding parse_manifest parse_intervals parse_interval parse_time replace_z label_of stride_at
    shunt_at overlaps apart list_eq ℕ_discrete
parses = refl

refuses_overlap : parse_manifest fl py (payload 19) ≡ refused overlap
unfolding parse_manifest parse_intervals parse_interval parse_time replace_z label_of stride_at
    shunt_at overlaps apart list_eq ℕ_discrete
refuses_overlap = refl

parse_manifest-IsAttested_example : IsAttested fl py manifest
parse_manifest-IsAttested_example = parse_manifest-IsAttested fl py (payload 20) manifest parses

abbrev sample : ℕ → Sample ℕ
sample n = record {
  id = n;
  device_id = codes "plug-1";
  boot_id = codes "deadbeef";
  seq = n;
  received_at = n;
  voltage_v = 230;
  current_a = 1;
  power_w = 230;
  energy_wh = 0;
  sensor_status = codes "ok";
  label = none;
  calibration_fingerprint = none;
}

abbrev samples : List (Sample ℕ)
samples = sample 9 ∷ sample 10 ∷ sample 20 ∷ sample 30 ∷ []

apply_manifest-witnessed_example :
    apply_manifest manifest samples ≡ map (witnessed manifest) (keep (is_approved manifest) samples)
apply_manifest-witnessed_example =
    apply_manifest-witnessed fl py (payload 20) manifest parses samples

labels : map (λ s. s.label) (apply_manifest manifest samples) ≡ some 0 ∷ some 1 ∷ []
unfolding apply_manifest covers list_eq ℕ_discrete
labels = refl
