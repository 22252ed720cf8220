-- ===== src/Review/Attested.antt =====
-- What a manifest that was accepted says.
use aiot_powerguard.Prelude.{
  ℕ, ◌≤◌, ◌<◌, ◌≡◌, true, false, not, ◌&&◌, List, [], ◌∷◌, ◌==◌, contains, list_eq, nat_eq, length,
  all_of, any_of, arith, All, All-map, Option-cases, inl, inr, &&-eq-true, subst,
}
use aiot_powerguard.Prelude.Result.{done, bind-done, demand-then, done-injective}
use aiot_powerguard.Text.{Text, codes}
use aiot_powerguard.Measure.{Floats}
use aiot_powerguard.Json.{
  Members, Builtins, Conversion, value, not_a_number, too_large, get, text_at, is_filled,
}
use aiot_powerguard.Review.{
  Interval, Manifest, covers, provenance_values, required, parse_intervals, list_at, stride_at,
  shunt_at, missing, is_missing, apart, some_item, version_ok, parse_manifest, unknown_version,
  unknown_provenance, nothing_approved, approved_not_normal, overlap, boot_ids_not_list,
  intervals_not_lists, positive_shunt,
}
use aiot_powerguard.Review.Intervals.{
  not-true, not-false, IsSpan, none_kept, apart-any_of, parse_intervals-IsSpan, some_interval,
  filled_texts-filled, stride_at-fits,
}

module _ {F : Type 0} (fl : Floats F) (py : Builtins F) where
  positive_shunt-positive :
      (o : Conversion F) (x : F) → positive_shunt fl py o ≡ done x → fl.le x fl.zero_f ≡ false
  positive_shunt-positive not_a_number x h = absurd cc
  positive_shunt-positive too_large x h = absurd cc
  positive_shunt-positive (value y) x h = ground arith

  shunt_at-positive :
      (payload : Members F) (x : F) → shunt_at fl py payload ≡ done x → fl.le x fl.zero_f ≡ false
  unfolding shunt_at
  shunt_at-positive payload x h = elim (Option-cases (get (codes "shunt_resistance_ohm") payload)) [
    | inl e ↦ positive_shunt-positive (value fl.zero_f) x (rw (e, shunt_at) at h)
    | inr (v, e) ↦ positive_shunt-positive (py.float_of v) x (rw (e, shunt_at) at h)
  ]

pub record IsAttested {F : Type 0} (fl : Floats F) (py : Builtins F) (m : Manifest F) : Type 0 where
  pub provenance : contains provenance_values m.provenance ≡ true
  pub stride : (1 ≤ m.expected_seq_stride) × (m.expected_seq_stride ≤ 8)
  pub shunt : fl.le m.shunt_resistance_ohm fl.zero_f ≡ false
  pub filled :
      All
        (λ t. is_filled py t ≡ true)
        (m.device_id ∷ m.calibration_fingerprint ∷ m.provenance ∷ m.reviewed_by ∷ m.reviewed_at
          ∷ m.firmware_version ∷ [])
  pub boots : All (λ t. is_filled py t ≡ true) m.boot_ids
  pub approves : 1 ≤ length m.approved_intervals
  pub approved : All (λ i. (i.start < i.end) × (i.label ≡ 0)) m.approved_intervals
  pub events : All IsSpan m.labelled_events
  pub disjoint :
      (t : ℕ)
      → (any_of (λ i. covers i t) m.approved_intervals
          && any_of (λ i. covers i t) m.labelled_events)
        ≡ false

normal_spans :
    (ns : List Interval)
    → All IsSpan ns
    → all_of (λ i. i.label == 0) ns ≡ true
    → All (λ i. (i.start < i.end) × (i.label ≡ 0)) ns
normal_spans [] h k = tt
normal_spans (i ∷ ns) h k =
    let (a, b) = &&-eq-true (i.label == 0) (all_of (λ j. j.label == 0) ns) k in
    ((h.0.0, ground arith), normal_spans ns h.1 b)

all_filled :
    {F : Type 0} (py : Builtins F) (f : Text → Text)
    → All (λ n. not (is_filled py (f n)) ≡ false) required
    → All (λ n. is_filled py (f n) ≡ true) required
all_filled py f h = All-map (λ n k. not-false (is_filled py (f n)) k) required h

-- What `parse_manifest` accepts is attested: the provenance is one of the three values, the stride
-- is from 1 to 8, the shunt is not zero or less, the six required texts and the boot ids are not
-- blank, there is an approved interval, every interval ends after it starts, the approved ones are
-- labelled 0 and the events 0 or 1, and no moment is both in an approved interval and in an event.
pub parse_manifest-IsAttested :
    {F : Type 0} (fl : Floats F) (py : Builtins F) (payload : Members F) (m : Manifest F)
    → parse_manifest fl py payload ≡ done m
    → IsAttested fl py m
unfolding parse_manifest
parse_manifest-IsAttested fl py payload m h =
    let (_, h1) = demand-then (version_ok payload) unknown_version _ m h in
    let (complete, h2) = demand-then (not (is_missing (missing py payload))) _ _ m h1 in
    let (shunt, s, h3) = bind-done (shunt_at fl py payload) _ m h2 in
    let (stride, t, h4) = bind-done (stride_at py payload) _ m h3 in
    let (boots, _, h5) =
      bind-done (list_at py (codes "boot_ids") boot_ids_not_list payload) _ m h4 in
    let (known, h6) =
      demand-then (contains provenance_values (text_at py (codes "provenance") payload))
        unknown_provenance _ m h5 in
    let (approved_raw, _, h7) =
      bind-done (list_at py (codes "approved_intervals") intervals_not_lists payload) _ m h6 in
    let (events_raw, _, h8) =
      bind-done (list_at py (codes "labelled_events") intervals_not_lists payload) _ m h7 in
    let (any, h9) = demand-then (some_item approved_raw) nothing_approved _ m h8 in
    let (approved, a, h10) = bind-done (parse_intervals py 0 approved_raw) _ m h9 in
    let (normal, h11) =
      demand-then (all_of (λ i. i.label == 0) approved) approved_not_normal _ m h10 in
    let (events, e, h12) = bind-done (parse_intervals py 1 events_raw) _ m h11 in
    let (separate, h13) = demand-then (apart approved events) overlap _ m h12 in
    let none_missing = not-true (is_missing (missing py payload)) complete in
    subst (IsAttested fl py) (done-injective _ m h13) (record {
      provenance = known;
      stride = stride_at-fits py payload stride t;
      shunt = shunt_at-positive fl py payload shunt s;
      filled =
          all_filled py (λ n. text_at py n payload)
            (none_kept (λ n. not (is_filled py (text_at py n payload))) required none_missing);
      boots = filled_texts-filled py boots;
      approves = some_interval py 0 approved_raw approved any a;
      approved =
          normal_spans approved (parse_intervals-IsSpan py 0 approved_raw approved (omega arith) a)
            normal;
      events = parse_intervals-IsSpan py 1 events_raw events (omega arith) e;
      disjoint = λ t. apart-any_of approved events t separate;
    })
