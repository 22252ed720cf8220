-- ===== src/Train/Promoted.antt =====
-- What stands behind an artifact that is marked as validated.
use aiot_powerguard.Prelude.{
  ℕ, ◌≤◌, ◌≡◌, refl, sym, ap, ◌∙◌, Bool, true, false, not, ◌&&◌, Option, some, List, [], ◌∷◌, ◌==◌,
  list_eq, nat_eq, option_eq, if◌then◌else◌, leb, keep, head?, arith, subst, Bool-cases, inl, inr,
  &&-eq-true,
}
use aiot_powerguard.Prelude.Result.{Result, done, refused}
use aiot_powerguard.Measure.{Floats}
use aiot_powerguard.Segments.Cut.{concat}
use aiot_powerguard.Dataset.{Sample}
use aiot_powerguard.Prepare.{Refusal, PreparedData, TimeSplit, prepare, time_split}
use aiot_powerguard.Review.{Manifest, hardware, is_hardware}
use aiot_powerguard.Gate.{evaluate_gate, is_empty}
use aiot_powerguard.Gate.Passed.{IsPromotable, evaluate_gate-IsPromotable}
use aiot_powerguard.Train.{
  Source, synthetic, dataset, Arguments, Metadata, Run, writes, exits, validated, not_established,
  or_else, is_synthetic, rows_of, provenance_of, stride_of, manifest_device, window_count,
  prepare_part, described, fitted, fit_split, fit_parts, fit, train_prepared, train_on, main,
  exit_blocked,
}

differ : not_established ≡ validated → ⊥
differ h = ground (arith, ap head? h)

validated_only : (b : Bool) → (if b then validated else not_established) ≡ validated → b ≡ true
validated_only true h = refl
validated_only false h = absurd (differ h)

module _ {F : Type 0} (fl : Floats F) (gap : ℕ) (eighty_percent : ℕ → ℕ) (truncated : F → ℕ) where
  -- what every artifact says of its data
  pub record Says (a : Arguments F) (passed : Bool) (md : Metadata F) : Type 0 where
    pub quality : md.data_quality ≡ (if a.promote && passed then validated else not_established)
    pub provenance : md.data_provenance ≡ provenance_of a.source a.manifest
    pub stride : md.expected_seq_stride ≡ stride_of a.manifest

  written : (m n : Metadata F) → ◌≡◌ {A = Run F} (writes m) (writes n) → m ≡ n
  written m n h = cc

  fitted-Says :
      (b : Bool) (a : Arguments F) (passed : Bool) (first : Sample F) (split : TimeSplit F)
      (m n : ℕ) (md : Metadata F)
      → fitted fl gap eighty_percent truncated b
          (described fl gap eighty_percent truncated a passed first split m n)
        ≡ writes md
      → Says a passed md
  fitted-Says false a passed first split m n md h = absurd cc
  fitted-Says true a passed first split m n md h =
      subst (Says a passed)
        (written (described fl gap eighty_percent truncated a passed first split m n) md h)
        (record { quality = refl; provenance = refl; stride = refl })

  fit_split-Says :
      (a : Arguments F) (passed : Bool) (first : Sample F) (split : TimeSplit F)
      (t c : Result Refusal (List (List (Sample F)))) (md : Metadata F)
      → fit_split fl gap eighty_percent truncated a passed first split t c ≡ writes md
      → Says a passed md
  fit_split-Says a passed first split (refused e) c md h = absurd cc
  fit_split-Says a passed first split (done t) (refused e) md h = absurd cc
  fit_split-Says a passed first split (done t) (done c) md h =
      fitted-Says (leb 1 (window_count t) && leb 1 (window_count c)) a passed first split
        (window_count t) (window_count c) md h

  fit_parts-Says :
      (a : Arguments F) (passed : Bool) (first : Sample F) (r : Result Refusal (TimeSplit F))
      (md : Metadata F)
      → fit_parts fl gap eighty_percent truncated a passed first r ≡ writes md
      → Says a passed md
  fit_parts-Says a passed first (refused e) md h = absurd cc
  fit_parts-Says a passed first (done split) md h =
      let part = prepare_part fl gap eighty_percent truncated (stride_of a.manifest) in
      fit_split-Says a passed first split (part split.train) (part split.calibration) md h

  fit-Says :
      (a : Arguments F) (passed : Bool) (rows : List (Sample F)) (md : Metadata F)
      → fit fl gap eighty_percent truncated a passed rows ≡ writes md
      → Says a passed md
  unfolding fit
  fit-Says a passed [] md h = absurd cc
  fit-Says a passed (row ∷ rows) md h =
      fit_parts-Says a passed row (time_split fl truncated a.train_fraction (row ∷ rows)) md h

  train_prepared-Says :
      (a : Arguments F) (passed : Bool) (r : Result Refusal (PreparedData F)) (md : Metadata F)
      → train_prepared fl gap eighty_percent truncated a passed r ≡ writes md
      → Says a passed md
  unfolding train_prepared
  train_prepared-Says a passed (refused e) md h = absurd cc
  train_prepared-Says a passed (done p) md h = elim (Bool-cases (is_empty p.segments)) [
    | inl e ↦ let h' : exits 2 ≡ writes md = rw e at h in absurd cc
    | inr e ↦ fit-Says a passed (concat p.segments) md (rw e at h)
  ]

  train_on-Says :
      (a : Arguments F) (passed : Bool) (rows : List (Sample F)) (md : Metadata F)
      → train_on fl gap eighty_percent truncated a passed rows ≡ writes md
      → Says a passed md
  unfolding train_on
  train_on-Says a passed rows md h =
      train_prepared-Says a passed
        (prepare fl 30 gap (or_else a.device_id (manifest_device a.manifest))
          a.calibration_fingerprint (stride_of a.manifest)
          (keep (λ row. not (row.label == some 1)) rows))
        md h

  -- the two refusals before training
  not_refused :
      (min_approved : ℕ) (a : Arguments F) (md : Metadata F)
      → main fl gap eighty_percent truncated min_approved a ≡ writes md
      → let passed =
          (evaluate_gate fl gap eighty_percent min_approved
            (rows_of a.source a.manifest)
            a.manifest).passed in
        ((a.promote && is_synthetic a.source) ≡ false) × Says a passed md
  unfolding main
  not_refused min_approved a md h =
      let passed =
        (evaluate_gate fl gap eighty_percent min_approved (rows_of a.source a.manifest)
          a.manifest).passed in
      elim (Bool-cases (a.promote && is_synthetic a.source)) [
        | inl e ↦ let h' : exits exit_blocked ≡ writes md = rw e at h in absurd cc
        | inr e ↦ elim (Bool-cases (a.promote && not passed)) [
          | inl k ↦ let h' : exits exit_blocked ≡ writes md = rw (e, k) at h in absurd cc
          | inr k ↦ (e, train_on-Says a passed (rows_of a.source a.manifest) md (rw (e, k) at h))
        ]
      ]

module _ {F : Type 0} where
  real_provenance :
      (s : Source F) (o : Option (Manifest F)) (m : Manifest F)
      → is_synthetic s ≡ false
      → o ≡ some m
      → provenance_of s o ≡ m.provenance
  real_provenance (synthetic rows) o m h e = absurd cc
  real_provenance (dataset rows) o m h e = ap (provenance_of (dataset rows)) e

  is_hardware-eq : (m : Manifest F) → is_hardware m ≡ true → m.provenance ≡ hardware
  is_hardware-eq m h = ground (arith, h)

-- When a run writes an artifact that is marked `validated_real_data`, promotion was asked for, the
-- rows are not synthetic, and there is a manifest for which the gate passes the rows: all that the
-- gate demands holds of them, for a minimum of at least one sample. The artifact says the provenance `hardware`
-- and the stride of the manifest.
pub main-IsPromotable :
    {F : Type 0} (fl : Floats F) (gap : ℕ) (eighty_percent : ℕ → ℕ) (truncated : F → ℕ)
    (min_approved : ℕ) (a : Arguments F) (md : Metadata F)
    → 1 ≤ min_approved
    → main fl gap eighty_percent truncated min_approved a ≡ writes md
    → md.data_quality ≡ validated
    → (a.promote ≡ true)
      × (is_synthetic a.source ≡ false)
      × ((m : Manifest F) × (a.manifest ≡ some m)
          × IsPromotable fl gap eighty_percent min_approved m (rows_of a.source a.manifest)
          × (md.data_provenance ≡ hardware)
          × (md.expected_seq_stride ≡ m.expected_seq_stride))
main-IsPromotable fl gap eighty_percent truncated min_approved a md positive h quality =
    let rows = rows_of a.source a.manifest in
    let (allowed, says) = not_refused fl gap eighty_percent truncated min_approved a md h in
    let passed = (evaluate_gate fl gap eighty_percent min_approved rows a.manifest).passed in
    let (promoted, gate) =
      &&-eq-true a.promote passed
        (validated_only (a.promote && passed) (sym says.quality ∙ quality)) in
    let real : is_synthetic a.source ≡ false = ground (arith, allowed, promoted) in
    let (m, e, fits) =
      evaluate_gate-IsPromotable fl gap eighty_percent min_approved rows a.manifest positive gate in
    (
      promoted,
      real,
      (
        m,
        e,
        fits,
        says.provenance
            ∙ real_provenance a.source a.manifest m real e
            ∙ is_hardware-eq m fits.attested,
        says.stride ∙ ap stride_of e,
      ),
    )
