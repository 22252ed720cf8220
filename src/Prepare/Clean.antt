-- ===== src/Prepare/Clean.antt =====
-- What the rows of a prepared dataset have in common.
use aiot_powerguard.Prelude.{
  ℕ, ◌≤◌, ◌≡◌, sym, ap, true, ◌&&◌, Option, none, some, List, [], ◌∷◌, ◌==◌, contains, list_eq,
  option_eq, nat_eq, leb, keep, length, arith, subst, All, All-map, All-keep,
}
use aiot_powerguard.Prelude.Result.{
  Result, done, demand, ◌>>=◌, ◌>>◌, bind-done, demand-then, demand-done, done-injective,
}
use aiot_powerguard.Text.{Text}
use aiot_powerguard.Measure.{Floats}
use aiot_powerguard.Segments.{cut, long_enough}
use aiot_powerguard.Segments.Cut.{concat, IsChain, cut-IsChain}
use aiot_powerguard.Dataset.{Sample, sample_order}
use aiot_powerguard.Prepare.{
  Refusal, no_regime, other_regime, PreparedData, fingerprint_of, named, of_device, check_device,
  check_regime, of_regime, sort, finite, is_ok, usable, finite_rows, deduped, prepare_rows, prepare,
  check_stride,
}
use aiot_powerguard.Prepare.Sets.{keep_holds, one_device, one_regime}
use aiot_powerguard.Prepare.Order.{
  Pairwise, IsAfter, All-concat_keep, Pairwise-concat-keep, All-sort, sort-Pairwise, All-dedupe,
  dedupe-Pairwise, All-zip,
}

-- what was asked for, when something was
abbrev pub IsOf : Option Text → Text → Type 0
IsOf none x = Unit
IsOf (some d) x = x ≡ d

pub record IsClean {F : Type 0} (fl : Floats F) (window gap : ℕ)
    (device_id calibration_fingerprint : Option Text) (stride : ℕ) (p : PreparedData F)
    : Type 0 where
  pub stride_fits : (1 ≤ stride) × (stride ≤ 8)
  pub long : All (λ s. window ≤ length s) p.segments
  pub chained : All (IsChain sample_order stride gap) p.segments
  pub ordered : Pairwise IsAfter (concat p.segments)
  pub measured : All (λ r. (is_ok fl r ≡ true) × (finite fl r ≡ true)) (concat p.segments)
  pub device : (d : Text) × All (λ r. r.device_id ≡ d) (concat p.segments)
  pub regime :
      (f : Text) × All (λ r. fingerprint_of r.calibration_fingerprint ≡ f) (concat p.segments)
  pub asked_device : All (λ r. IsOf device_id r.device_id) (concat p.segments)
  pub asked_regime :
      All
        (λ r. IsOf calibration_fingerprint (fingerprint_of r.calibration_fingerprint))
        (concat p.segments)

same_text : (a b : Text) → (a == b) ≡ true → a ≡ b
same_text a b h = ground arith

same_fingerprint : (o : Option Text) (f : Text) → (o == some f) ≡ true → fingerprint_of o ≡ f
same_fingerprint o f h = let e : o ≡ some f = ground arith in ap fingerprint_of e

module _ {F : Type 0} where
  of_device-asked :
      (o : Option Text) (rows : List (Sample F)) → All (λ r. IsOf o r.device_id) (of_device o rows)
  unfolding of_device
  of_device-asked none [] = tt
  of_device-asked none (r ∷ rows) = (tt, of_device-asked none rows)
  of_device-asked (some d) rows =
      All-map (λ r k. same_text r.device_id d k) (keep (λ r. r.device_id == d) rows)
        (keep_holds (λ r. r.device_id == d) rows)

  of_regime-All :
      (o : Option Text) (rows got : List (Sample F))
      → of_regime o rows ≡ done got
      → (P : Sample F → Type 0) → All P rows
      → All (λ r. P r × IsOf o (fingerprint_of r.calibration_fingerprint)) got
  unfolding of_regime
  of_regime-All none rows got h P a =
      let e = done-injective rows got h in
      subst (All (λ r. P r × Unit)) e (All-map (λ r k. (k, tt)) rows a)
  of_regime-All (some f) rows got h P a =
      let asked = done (keep (λ r. r.calibration_fingerprint == some f) rows) in
      let (_, more) =
        demand-then (leb 1 (length (named rows))) (no_regime f)
          (demand (contains (named rows) f) (other_regime f) >> asked) got h in
      let (_, last) = demand-then (contains (named rows) f) (other_regime f) asked got more in
      let p = λ (r : Sample F). r.calibration_fingerprint == some f in
      let e = done-injective (keep p rows) got last in
      subst (All (λ r. P r × IsOf (some f) (fingerprint_of r.calibration_fingerprint))) e (
        All-zip P (λ r. fingerprint_of r.calibration_fingerprint ≡ f) (keep p rows)
          (All-keep P p rows a)
          (All-map (λ r k. same_fingerprint r.calibration_fingerprint f k) (keep p rows)
            (keep_holds p rows)))

module _ {F : Type 0} (fl : Floats F) (window stride gap total : ℕ) (rows : List (Sample F)) where
  -- what holds of every row that enters holds of every row of a segment
  All-prepare_rows :
      (P : Sample F → Type 0)
      → All P (finite_rows fl rows)
      → All P (concat (prepare_rows fl window stride gap total rows).segments)
  unfolding prepare_rows
  All-prepare_rows P a =
      let (whole, _, _) = cut-IsChain sample_order stride gap window (deduped fl rows) in
      let clean =
        All-dedupe P [] (sort (finite_rows fl rows)) (All-sort P (finite_rows fl rows) a) in
      All-concat_keep P (λ s. leb window (length s)) (cut sample_order stride gap (deduped fl rows))
        (subst (All P) (sym whole) clean)

  prepare_rows-ordered :
      Pairwise IsAfter (concat (prepare_rows fl window stride gap total rows).segments)
  unfolding prepare_rows
  prepare_rows-ordered =
      let (whole, _, _) = cut-IsChain sample_order stride gap window (deduped fl rows) in
      let clean =
        dedupe-Pairwise [] (sort (finite_rows fl rows)) (sort-Pairwise (finite_rows fl rows)) in
      Pairwise-concat-keep IsAfter (λ s. leb window (length s))
        (cut sample_order stride gap (deduped fl rows)) (subst (Pairwise IsAfter) (sym whole) clean)

  prepare_rows-chained :
      All (IsChain sample_order stride gap) (prepare_rows fl window stride gap total rows).segments
  unfolding prepare_rows long_enough
  prepare_rows-chained =
      let (_, _, chains) = cut-IsChain sample_order stride gap window (deduped fl rows) in chains

  prepare_rows-long :
      All (λ s. window ≤ length s) (prepare_rows fl window stride gap total rows).segments
  unfolding prepare_rows
  prepare_rows-long =
      All-map (λ s h. ground arith) _
        (keep_holds (λ s. leb window (length s)) (cut sample_order stride gap (deduped fl rows)))

  measured_rows : All (λ r. (is_ok fl r ≡ true) × (finite fl r ≡ true)) (finite_rows fl rows)
  measured_rows =
      All-zip (λ r. is_ok fl r ≡ true) (λ r. finite fl r ≡ true) (finite_rows fl rows)
        (All-keep (λ r. is_ok fl r ≡ true) (finite fl) (usable fl rows)
          (keep_holds (is_ok fl) rows))
        (keep_holds (finite fl) (usable fl rows))

pub prepare-done :
    {F : Type 0} (fl : Floats F) (window gap : ℕ) (device_id calibration_fingerprint : Option Text)
    (stride : ℕ) (samples : List (Sample F)) (p : PreparedData F)
    → prepare fl window gap device_id calibration_fingerprint stride samples ≡ done p
    → (u : Unit {0}) × (v : Unit {0}) × (w : Unit {0}) × (rows : List (Sample F)) × (check_stride
          stride
        ≡ done u)
      × (check_device (of_device device_id samples) ≡ done v)
      × (check_regime (of_device device_id samples) ≡ done w)
      × (of_regime calibration_fingerprint (of_device device_id samples) ≡ done rows)
      × (prepare_rows fl window stride gap (length samples) rows ≡ p)
unfolding prepare
prepare-done {F} fl window gap device_id fp stride samples p h =
    let asked = of_device device_id samples in
    let finish : List (Sample F) → Result Refusal (PreparedData F) =
      λ rows. done (prepare_rows fl window stride gap (length samples) rows) in
    let (u, a, h1) =
      bind-done (check_stride stride)
        (λ _. check_device asked >> (check_regime asked >> (of_regime fp asked >>= finish))) p h in
    let (v, b, h2) =
      bind-done (check_device asked) (λ _. check_regime asked >> (of_regime fp asked >>= finish)) p
        h1 in
    let (w, c, h3) = bind-done (check_regime asked) (λ _. of_regime fp asked >>= finish) p h2 in
    let (rows, d, h4) = bind-done (of_regime fp asked) finish p h3 in
    (
      u,
      v,
      w,
      rows,
      a,
      b,
      c,
      d,
      done-injective (prepare_rows fl window stride gap (length samples) rows) p h4,
    )

check_stride-fits : (n : ℕ) (u : Unit {0}) → check_stride n ≡ done u → (1 ≤ n) × (n ≤ 8)
unfolding check_stride
check_stride-fits n u h =
    let k = demand-done (leb 1 n && leb n 8) _ u h in (ground arith, ground arith)

-- When `prepare` returns, the stride is from 1 to 8 and the segments are clean: each is as long as a
-- window and holds no gap; over all of them the rows come by time and then by id, no two rows have
-- the same id, every row is of a working sensor and has finite measurements, all rows are of one
-- device and of one calibration regime (or none carries a fingerprint), and they are of the device
-- and of the regime that were asked for, if any were.
pub prepare-IsClean :
    {F : Type 0} (fl : Floats F) (window gap : ℕ) (device_id calibration_fingerprint : Option Text)
    (stride : ℕ) (samples : List (Sample F)) (p : PreparedData F)
    → prepare fl window gap device_id calibration_fingerprint stride samples ≡ done p
    → IsClean fl window gap device_id calibration_fingerprint stride p
prepare-IsClean fl window gap device_id fp stride samples p h =
    let (u, v, w, rows, a, b, c, d, e) =
      prepare-done fl window gap device_id fp stride samples p h in
    let asked = of_device device_id samples in
    let (one, all_one) = one_device asked v b in
    let (regime, all_regime) = one_regime asked w c in
    let n = length samples in
    let enters = λ (P : Sample _ → Type 0) (k : All P asked).
      All-prepare_rows fl window stride gap n rows P (
        All-keep P (finite fl) (usable fl rows) (
          All-keep P (is_ok fl) rows
            (All-map (λ r q. q.0) rows (of_regime-All fp asked rows d P k)))) in
    subst (IsClean fl window gap device_id fp stride) e (record {
      stride_fits = check_stride-fits stride u a;
      long = prepare_rows-long fl window stride gap n rows;
      chained = prepare_rows-chained fl window stride gap n rows;
      ordered = prepare_rows-ordered fl window stride gap n rows;
      measured =
          All-prepare_rows fl window stride gap n rows _
            (measured_rows fl window stride gap n rows);
      device = (one, enters (λ r. r.device_id ≡ one) all_one);
      regime = (regime, enters (λ r. fingerprint_of r.calibration_fingerprint ≡ regime) all_regime);
      asked_device = enters (λ r. IsOf device_id r.device_id) (of_device-asked device_id samples);
      asked_regime = All-prepare_rows fl window stride gap n rows _ (
          All-keep _ (finite fl) (usable fl rows) (
            All-keep _ (is_ok fl) rows (
              All-map (λ r q. q.1) rows
                (of_regime-All fp asked rows d (λ r. IsOf device_id r.device_id)
                  (of_device-asked device_id samples)))));
    })
