-- ===== src/Payload/Checks.antt =====
-- The field checks of schemas.py. A check yields a value or the field that failed.
use aiot_powerguard.Prelude.{
  ℕ, zero, suc, not, Bool, true, false, ◌&&◌, ◌||◌, Option, none, some, List, [], ◌∷◌, ◌==◌,
  contains, list_eq, nat_eq, if◌then◌else◌, leb, length, is_some,
}
use mathlib.Core.Option.{map}
use aiot_powerguard.Prelude.Int.{ℤ, pos}
use aiot_powerguard.Prelude.Dict.{Dict, lookup}
use aiot_powerguard.Text.{Text, codes, match_exactly, is_lower, is_digit}
use aiot_powerguard.Text.Regex.{
  Regex, chars, char, followed_by, or_else, star, optional, plus, dollar, full_match,
}
use aiot_powerguard.Measure.{Floats}

-- A JSON value as `json.loads` returns it. No check looks into an array or an inner object.
pub data Value (F : Type 0) : Type 0 where
  null nested : Value F
  bool : Bool → Value F
  int : ℤ → Value F
  float : F → Value F
  str : Text → Value F

-- What `re`'s `\\d` and `datetime.strptime` do; the latter gives the moment in microseconds.
pub record Calendar : Type 0 where
  pub decimal : ℕ → Bool
  pub strptime : Text → Option ℕ

pub data Checked {ℓ} (A : Type ℓ) : Type ℓ where
  good : A → Checked A
  bad : Text → Checked A

infixl 5 ◌>>=◌ ◌>>◌
abbrev pub ◌>>=◌ {ℓ κ} : {A : Type ℓ} {B : Type κ} → Checked A → (A → Checked B) → Checked B
good a >>= f = f a
bad e >>= f = bad e

abbrev pub ◌>>◌ {ℓ} : {B : Type ℓ} → Checked (Unit {0}) → Checked B → Checked B
m >> k = m >>= λ _. k

abbrev pub require : Bool → Text → Checked (Unit {0})
require true e = good tt
require false e = bad e

abbrev pub seq_max : ℕ
seq_max = 4_294_967_295

abbrev pub firmware_version_max : ℕ
firmware_version_max = 32

abbrev pub is_hex : ℕ → Bool
is_hex c = is_digit c || (leb b'a' c && leb c b'f')

-- `BOOT_ID_PATTERN`, `^[0-9a-f]{8}$`
unfoldable pub boot_id_ok : Text → Bool
boot_id_ok = match_exactly is_hex 8

abbrev upper : ℕ → Bool
upper c = leb b'A' c && leb c b'Z'

module _ (cal : Calendar) where
  open cal use {decimal}

  abbrev letter : ℕ → Bool
  letter c = is_lower c || (upper c || c == b'-')

  abbrev word : ℕ → Bool
  word c = is_digit c || letter c

  abbrev number : Regex
  number =
      or_else (char b'0')
        (followed_by (chars (λ c. leb b'1' c && leb c b'9')) (star (chars decimal)))

  abbrev pre_part : Regex
  pre_part =
      or_else number
        (followed_by (star (chars decimal)) (followed_by (chars letter) (star (chars word))))

  abbrev dotted : Regex → Regex
  dotted r = followed_by r (star (followed_by (char b'.') r))

  -- `SEMVER_PATTERN`
  unfoldable pub semver : Regex
  semver = followed_by number (
      followed_by (char b'.') (
        followed_by number (
          followed_by (char b'.') (
            followed_by number (
              followed_by (optional (followed_by (char b'-') (dotted pre_part))) (
                followed_by (optional (followed_by (char b'+') (dotted (plus (chars word)))))
                  dollar))))))

  unfoldable pub firmware_version_ok : Text → Bool
  firmware_version_ok s = leb (length s) firmware_version_max && full_match semver s

  -- `\d{n}` before the rest
  abbrev digits : ℕ → Regex → Regex
  digits zero r = r
  digits (suc n) r = followed_by (chars decimal) (digits n r)

  -- `SAMPLED_AT_PATTERN`
  unfoldable pub sampled_at_pattern : Regex
  sampled_at_pattern = digits 4 (
      followed_by (char b'-') (
        digits 2 (
          followed_by (char b'-') (
            digits 2 (
              followed_by (char b'T') (
                digits 2 (
                  followed_by (char b':') (
                    digits 2 (
                      followed_by (char b':') (
                        digits 2 (
                          followed_by (char b'.')
                            (digits 3 (followed_by (char b'Z') dollar)))))))))))))

  unfoldable pub sampled_at_ok : Text → Bool
  sampled_at_ok s = full_match sampled_at_pattern s && is_some (cal.strptime s)

-- `sampled_at_datetime`; the outer `none` is its `ValueError`
unfoldable pub sampled_at_datetime : Calendar → Option Text → Option (Option ℕ)
sampled_at_datetime cal none = some none
sampled_at_datetime cal (some s) = map (λ t. some t) (cal.strptime s)

module _ {F : Type 0} where
  -- a required field
  unfoldable pub field : Text → Dict Text (Value F) → Checked (Value F)
  field k d = elim (lookup k d) [ none ↦ bad k | some v ↦ good v ]

  -- `StrictStr`
  abbrev pub strict_str : Text → Value F → Checked Text
  strict_str k (str s) = good s
  strict_str k null = bad k
  strict_str k nested = bad k
  strict_str k (bool _) = bad k
  strict_str k (int _) = bad k
  strict_str k (float _) = bad k

  -- `Literal[1]`
  abbrev pub check_schema_version : Value F → Checked (Unit {0})
  check_schema_version (int (pos n)) = require (n == 1) (codes "schema_version")
  check_schema_version _ = bad (codes "schema_version")

  -- `_validate_boot_id`
  unfoldable pub validate_boot_id : Value F → Checked Text
  validate_boot_id v = do
    s ← strict_str (codes "boot_id") v
    require (boot_id_ok s) (codes "boot_id")
    good s

  -- `_check_seq`, on a `StrictInt`: a boolean is none
  unfoldable pub check_seq : Value F → Checked ℕ
  check_seq (int (pos n)) = if leb n seq_max then good n else bad (codes "seq")
  check_seq _ = bad (codes "seq")

  -- `Literal["ok"]`
  unfoldable pub check_sensor_status : Value F → Checked (Unit {0})
  check_sensor_status (str s) = require (s == codes "ok") (codes "sensor_status")
  check_sensor_status _ = bad (codes "sensor_status")

  unfoldable pub check_sampled_at : Calendar → Value F → Checked (Option Text)
  check_sampled_at cal null = good none
  check_sampled_at cal (str s) =
      if sampled_at_ok cal s then good (some s) else bad (codes "sampled_at")
  check_sampled_at cal _ = bad (codes "sampled_at")

  -- `_validate_firmware_version`
  unfoldable pub validate_firmware_version : Calendar → Value F → Checked Text
  validate_firmware_version cal v = do
    s ← strict_str (codes "firmware_version") v
    require (firmware_version_ok cal s) (codes "firmware_version")
    good s

  -- `_reject_boolean_numbers`, the strict `float`, and `_require_finite`
  unfoldable pub check_number : Floats F → Text → Value F → Checked F
  check_number fl k (float x) = if fl.is_finite x then good x else bad k
  check_number fl k (int z) = if fl.is_finite (fl.of_int z) then good (fl.of_int z) else bad k
  check_number fl k _ = bad k

  -- `_require_non_negative_energy` follows on the checks of every measurement.
  unfoldable pub check_energy : Floats F → Value F → Checked F
  unfolding check_number
  check_energy fl v = do
    x ← check_number fl (codes "energy_wh") v
    require (not (fl.lt x fl.zero_f)) (codes "energy_wh")
    good x

  -- `extra="forbid"`: the first key that the model does not name
  unfoldable pub forbid_extra : List Text → Dict Text (Value F) → Checked (Unit {0})
  forbid_extra known [] = good tt
  forbid_extra known ((k, _) ∷ d) = if contains known k then forbid_extra known d else bad k
