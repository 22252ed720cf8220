-- ===== src/Prepare/Rows.antt =====
-- What became of every row.
use mathlib.Core.List.Perm
use mathlib.Core.List.{Perm}
use aiot_powerguard.Prelude.{
  ◌&&◌, true, ◌==◌, list_eq, nat_eq, contains, map, ◌++◌, ℕ, ◌+◌, ◌≡◌, refl, ap, ◌∙◌, Bool, not,
  none, List, [], ◌∷◌, leb, keep, length, arith, subst, All, length-keep, length-append,
}
use aiot_powerguard.Text.{codes}
use aiot_powerguard.Prepare.Order.{
  Pairwise, IsAfter, dedupe-Pairwise, sort-Pairwise, length-sort, length-dedupe,
}
use aiot_powerguard.Prepare.Split.{sort-perm}
use aiot_powerguard.Prepare.Repeats.{
  length-keep-not, keep-twice, repeats, dedupe-repeats, length-repeats, repeats-Known,
}
use aiot_powerguard.Prelude.Result.{done, done-injective}
use aiot_powerguard.Measure.{Floats}
use aiot_powerguard.Segments.{cut}
use aiot_powerguard.Segments.Cut.{concat, cut-IsChain}
use aiot_powerguard.Dataset.{Sample, sample_order}
use aiot_powerguard.Prepare.{
  PreparedData, of_device, of_regime, sort, finite, is_ok, usable, finite_rows, deduped,
  prepare_rows, prepare, kept, rows_in,
}
use aiot_powerguard.Prepare.Clean.{prepare-done}

module _ {A : Type 0} where
  rows_in-concat : (ss : List (List A)) → rows_in ss ≡ length (concat ss)
  rows_in-concat [] = refl
  rows_in-concat (s ∷ ss) = omega (arith, length-append s (concat ss), rows_in-concat ss)

  rows_in-keep :
      (p : List A → Bool) (ss : List (List A))
      → rows_in ss ≡ rows_in (keep p ss) + rows_in (keep (λ s. not (p s)) ss)
  rows_in-keep p [] = refl
  rows_in-keep p (s ∷ ss) = ground (arith, rows_in-keep p ss)

module _ {F : Type 0} (fl : Floats F) where
  -- a row of a sensor that works
  abbrev pub sensor_works : Sample F → Bool
  sensor_works s = s.sensor_status == codes "ok"

  -- a row without a measurement that is infinite or not a number
  abbrev pub is_measured : Sample F → Bool
  is_measured s =
      fl.is_finite s.voltage_v
      && (fl.is_finite s.current_a && (fl.is_finite s.power_w && fl.is_finite s.energy_wh))

  -- Where every row of `samples` went: `ordered` are the rows that reached the cut.
  pub record Account (window gap stride : ℕ) (samples : List (Sample F)) (p : PreparedData F)
      : Type 0 where
    pub ordered : List (Sample F)
    pub repeated : List (Sample F)
    pub in_order : Pairwise IsAfter ordered
    pub repeats_ids : All (λ r. contains (map (λ s. s.id) ordered) r.id ≡ true) repeated
    pub usable_rows :
        Perm (ordered ++ repeated) (keep (λ s. sensor_works s && is_measured s) samples)
    pub long_segments :
        p.segments ≡ keep (λ s. leb window (length s)) (cut sample_order stride gap ordered)
    pub short_segments :
        p.dropped_short_segments
        ≡ length (keep (λ s. not (leb window (length s))) (cut sample_order stride gap ordered))
    pub broken_sensor : p.dropped_sensor_status ≡ length (keep (λ s. not (sensor_works s)) samples)
    pub not_finite :
        p.dropped_non_finite ≡ length (keep (λ s. sensor_works s && not (is_measured s)) samples)
    pub duplicates : p.dropped_duplicate ≡ length repeated
    pub input : p.total_input ≡ length samples
    pub adds_up :
        p.total_input
        ≡ p.dropped_sensor_status
          + (p.dropped_non_finite
              + (p.dropped_duplicate
                  + (kept p
                      + rows_in (
                          keep
                            (λ s. not (leb window (length s)))
                            (cut sample_order stride gap ordered)))))

  prepare_rows-Account :
      (window gap stride : ℕ) (samples : List (Sample F))
      → Account window gap stride samples
          (prepare_rows fl window stride gap (length samples) samples)
  unfolding prepare_rows
  prepare_rows-Account window gap stride samples =
      let sorted = sort (finite_rows fl samples) in
      let segments = cut sample_order stride gap (deduped fl samples) in
      let long = λ (s : List (Sample F)). leb window (length s) in
      let (whole, _, _) = cut-IsChain sample_order stride gap window (deduped fl samples) in
      let n : rows_in segments ≡ length (deduped fl samples) =
        rows_in-concat segments ∙ ap length whole in
      let twice = keep-twice (is_measured) (sensor_works) samples in
      let lost : length (keep (λ s. not (is_measured s)) (usable fl samples))
          ≡ length (keep (λ s. sensor_works s && not (is_measured s)) samples) =
        ap length (keep-twice (λ s. not (is_measured s)) sensor_works samples) in
      record {
        ordered = deduped fl samples;
        repeated = repeats [] sorted;
        in_order = dedupe-Pairwise [] sorted (sort-Pairwise (finite_rows fl samples));
        repeats_ids = repeats-Known [] sorted;
        usable_rows =
            subst (λ w. Perm (deduped fl samples ++ repeats [] sorted) w) twice
              (Perm.trans (dedupe-repeats [] sorted) (sort-perm (finite_rows fl samples)));
        long_segments = refl;
        short_segments = omega (arith, length-keep-not long segments);
        broken_sensor = omega (arith, length-keep-not (is_ok fl) samples);
        not_finite = omega (arith, lost, length-keep-not (finite fl) (usable fl samples));
        duplicates = omega (arith, length-repeats [] sorted);
        input = refl;
        adds_up = omega (
          arith,
          n,
          rows_in-keep long segments,
          length-sort (finite_rows fl samples),
          length-dedupe [] sorted,
          length-keep (is_ok fl) samples,
          length-keep (finite fl) (usable fl samples),
        );
      }

-- When `prepare` returns and neither a device nor a regime was asked for, it accounts for every row
-- that it was given. The rows of a working sensor with four finite measurements are, in some order,
-- the rows that reach the cut and the repeats: the first are in the order of time and id with no id
-- twice, and each repeat has an id of theirs. The segments are those of the cut that are as long as a
-- window, and the count of dropped segments is that of the others. The counters are the numbers of
-- rows of a sensor that does not work, of other rows that are not finite, and of repeats; with the
-- kept rows and the rows of the short segments they add up to the rows given.
pub prepare-counts_rows :
    {F : Type 0} (fl : Floats F) (window gap stride : ℕ) (samples : List (Sample F))
    (p : PreparedData F)
    → prepare fl window gap none none stride samples ≡ done p
    → Account fl window gap stride samples p
unfolding of_device of_regime
prepare-counts_rows {F} fl window gap stride samples p h =
    let (u, v, w, rows, a, b, c, d, e) = prepare-done fl window gap none none stride samples p h in
    let all : samples ≡ rows = done-injective samples rows d in
    let total : prepare_rows fl window stride gap (length samples) samples ≡ p =
      ap (prepare_rows fl window stride gap (length samples)) all ∙ e in
    subst (Account fl window gap stride samples) total
      (prepare_rows-Account fl window gap stride samples)
