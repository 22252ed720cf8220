-- ===== src/Review.antt =====
-- ml/src/powerguard_ml/review.py: the manifest in which a person approves the rows of a capture. The
-- message of a `ReviewError` is a constructor; the index that it names is left out.
mod Intervals
pub mod Attested
pub mod Approved
mod Tests
use aiot_powerguard.Prelude.{
  ℕ, zero, suc, Bool, true, false, not, ◌&&◌, ◌||◌, Option, none, some, List, [], ◌∷◌, ◌++◌, ◌==◌,
  contains, list_eq, nat_eq, if◌then◌else◌, ltb, leb, length, all_of, any_of, keep,
}
use aiot_powerguard.Prelude.Int.{ℤ, pos}
use aiot_powerguard.Prelude.Result.{Result, done, refused, demand, ◌>>=◌, ◌>>◌}
use aiot_powerguard.Text.{Text, codes}
use aiot_powerguard.Measure.{Floats}
use aiot_powerguard.Json.{
  Json, Items, Members, Builtins, Conversion, value, not_a_number, too_large, null, bool, int,
  float, str, array, object, nil, item, get, text_at, is_filled, replace_z,
}
use aiot_powerguard.Dataset.{Sample}
use aiot_powerguard.Prepare.{max_seq_stride}

pub data ReviewError : Type 0 where
  -- `shunt_overflow` is an `OverflowError`, which passes through
  unknown_version shunt_not_number shunt_not_positive stride_refused boot_ids_not_list
        shunt_overflow :
      ReviewError
  unknown_provenance intervals_not_lists nothing_approved approved_not_normal overlap : ReviewError
  not_an_interval bound_missing not_a_time no_offset empty_interval bad_label : ReviewError
  fields_missing : List Text → ReviewError

pub record Interval : Type 0 where
  pub start : ℕ
  pub end : ℕ
  pub label : ℕ
  pub description : Text

unfoldable pub covers : Interval → ℕ → Bool
covers i moment = leb i.start moment && ltb moment i.end

pub record Manifest (F : Type 0) : Type 0 where
  pub device_id : Text
  pub calibration_fingerprint : Text
  pub provenance : Text
  pub reviewed_by : Text
  pub reviewed_at : Text
  pub approved_intervals : List Interval
  pub firmware_version : Text
  pub shunt_resistance_ohm : F
  pub expected_seq_stride : ℕ
  pub boot_ids : List Text
  pub labelled_events : List Interval
  pub notes : Text

abbrev pub hardware : Text
hardware = codes "hardware"

abbrev pub provenance_values : List Text
provenance_values = hardware ∷ codes "synthetic" ∷ codes "unknown" ∷ []

abbrev pub is_hardware : {F : Type 0} → Manifest F → Bool
is_hardware m = m.provenance == hardware

abbrev pub intervals : {F : Type 0} → Manifest F → List Interval
intervals m = m.approved_intervals ++ m.labelled_events

abbrev pub required : List Text
required =
    codes "device_id"
    ∷ codes "calibration_fingerprint"
    ∷ codes "provenance"
    ∷ codes "reviewed_by"
    ∷ codes "reviewed_at"
    ∷ codes "firmware_version"
    ∷ []

module _ {F : Type 0} (py : Builtins F) where
  unfoldable pub parse_time : Json F → Result ReviewError ℕ
  unfolding replace_z
  parse_time written = elim (py.fromisoformat (replace_z (py.str_of written))) [
    | none ↦ refused not_a_time
    | some none ↦ refused no_offset
    | some (some stamp) ↦ done stamp
  ]

  -- the value that `in (0, 1)` finds
  abbrev pub zero_or_one : Json F → Option ℕ
  zero_or_one (int (pos zero)) = some 0
  zero_or_one (int (pos (suc zero))) = some 1
  zero_or_one (bool false) = some 0
  zero_or_one (bool true) = some 1
  zero_or_one (float f) = if py.equals f 0 then some 0 else if py.equals f 1 then some 1 else none
  zero_or_one _ = none

  unfoldable pub label_of : ℕ → Members F → Result ReviewError ℕ
  label_of label payload = elim (get (codes "label") payload) [
    | none ↦ done label
    | some v ↦ elim (zero_or_one v) [ none ↦ refused bad_label | some n ↦ done n ]
  ]

  abbrev pub present : Text → Members F → Result ReviewError (Json F)
  present key payload = elim (get key payload) [ none ↦ refused bound_missing | some v ↦ done v ]

  unfoldable pub parse_interval : ℕ → Json F → Result ReviewError Interval
  unfolding parse_time label_of
  parse_interval label (object payload) = do
    from ← present (codes "from") payload
    to ← present (codes "to") payload
    start ← parse_time from
    end ← parse_time to
    demand (not (leb end start)) empty_interval
    declared ← label_of label payload
    done (record {
      start = start;
      end = end;
      label = declared;
      description = text_at py (codes "description") payload;
    })
  parse_interval label _ = refused not_an_interval

  unfoldable pub parse_intervals : ℕ → Items F → Result ReviewError (List Interval)
  parse_intervals label nil = done []
  parse_intervals label (item v rest) = do
    first ← parse_interval label v
    others ← parse_intervals label rest
    done (first ∷ others)

  -- `payload.get(key, [])`, which has to be a list
  abbrev pub list_at : Text → ReviewError → Members F → Result ReviewError (Items F)
  list_at key e payload = elim (get key payload) [
    | none ↦ done nil
    | some (array items) ↦ done items
    | some _ ↦ refused e
  ]

  -- `check_stride` of what the payload declares
  unfoldable pub stride_at : Members F → Result ReviewError ℕ
  stride_at payload = elim (get (codes "expected_seq_stride") payload) [
    | none ↦ done 2
    | some (int (pos n)) ↦
        if leb 1 n && leb n max_seq_stride then done n else refused stride_refused
    | some _ ↦ refused stride_refused
  ]

  abbrev pub filled_texts : Items F → List Text
  filled_texts nil = []
  filled_texts (item v rest) =
      if is_filled py (py.str_of v) then py.str_of v ∷ filled_texts rest else filled_texts rest

  abbrev pub missing : Members F → List Text
  missing payload = keep (λ name. not (is_filled py (text_at py name payload))) required

abbrev pub is_missing : List Text → Bool
is_missing names = leb 1 (length names)

unfoldable pub overlaps : Interval → Interval → Bool
overlaps normal event = ltb normal.start event.end && ltb event.start normal.end

-- the two loops over the pairs
unfoldable pub apart : List Interval → List Interval → Bool
apart approved events = all_of (λ a. all_of (λ e. not (overlaps a e)) events) approved

abbrev pub some_item : {F : Type 0} → Items F → Bool
some_item nil = false
some_item (item _ _) = true

abbrev pub version_ok : {F : Type 0} → Members F → Bool
version_ok payload = elim (get (codes "manifest_version") payload) [
  | some (str s) ↦ s == codes "powerguard_review_v1"
  | _ ↦ false
]

module _ {F : Type 0} (fl : Floats F) (py : Builtins F) where
  abbrev pub positive_shunt : Conversion F → Result ReviewError F
  positive_shunt not_a_number = refused shunt_not_number
  positive_shunt too_large = refused shunt_overflow
  positive_shunt (value shunt) =
      if fl.le shunt fl.zero_f then refused shunt_not_positive else done shunt

  unfoldable pub shunt_at : Members F → Result ReviewError F
  shunt_at payload = elim (get (codes "shunt_resistance_ohm") payload) [
    | none ↦ positive_shunt (value fl.zero_f)
    | some v ↦ positive_shunt (py.float_of v)
  ]

  unfoldable pub parse_manifest : Members F → Result ReviewError (Manifest F)
  unfolding parse_intervals stride_at shunt_at apart
  parse_manifest payload = do
    demand (version_ok payload) unknown_version
    demand (not (is_missing (missing py payload))) (fields_missing (missing py payload))
    shunt ← shunt_at payload
    stride ← stride_at py payload
    boots ← list_at py (codes "boot_ids") boot_ids_not_list payload
    let provenance = text_at py (codes "provenance") payload
    demand (contains provenance_values provenance) unknown_provenance
    approved_raw ← list_at py (codes "approved_intervals") intervals_not_lists payload
    events_raw ← list_at py (codes "labelled_events") intervals_not_lists payload
    demand (some_item approved_raw) nothing_approved
    approved ← parse_intervals py 0 approved_raw
    demand (all_of (λ i. i.label == 0) approved) approved_not_normal
    events ← parse_intervals py 1 events_raw
    demand (apart approved events) overlap
    done (record {
      device_id = text_at py (codes "device_id") payload;
      calibration_fingerprint = text_at py (codes "calibration_fingerprint") payload;
      provenance = provenance;
      reviewed_by = text_at py (codes "reviewed_by") payload;
      reviewed_at = text_at py (codes "reviewed_at") payload;
      approved_intervals = approved;
      firmware_version = text_at py (codes "firmware_version") payload;
      shunt_resistance_ohm = shunt;
      expected_seq_stride = stride;
      boot_ids = filled_texts py boots;
      labelled_events = events;
      notes = text_at py (codes "notes") payload;
    })

-- the first interval that covers the moment
abbrev pub covering : List Interval → ℕ → Option Interval
covering [] moment = none
covering (i ∷ is) moment = if covers i moment then some i else covering is moment

module _ {F : Type 0} where
  abbrev pub of_boot : Manifest F → Sample F → Bool
  of_boot m s = not (leb 1 (length m.boot_ids)) || contains m.boot_ids s.boot_id

  abbrev pub stamped : Manifest F → Interval → Sample F → Sample F
  stamped m interval s = record s {
    label = some interval.label;
    calibration_fingerprint = some m.calibration_fingerprint;
  }

  -- one turn of the loop, with the rows approved after it
  abbrev pub approve : Manifest F → Sample F → Option Interval → List (Sample F) → List (Sample F)
  approve m s none rest = rest
  approve m s (some i) rest = stamped m i s ∷ rest

  unfoldable pub apply_manifest : Manifest F → List (Sample F) → List (Sample F)
  apply_manifest m [] = []
  apply_manifest m (s ∷ samples) =
      let rest = apply_manifest m samples in
      if not (s.device_id == m.device_id)
      then rest
      else if not (of_boot m s)
      then rest
      else approve m s (covering (intervals m) s.received_at) rest
