-- ===== src/Gate/Passed.antt =====
-- What a dataset that passes has.
use aiot_powerguard.Prelude.{
  ℕ, ◌+◌, ◌-◌, ◌≤◌, ◌≡◌, refl, sym, ap, ◌∙◌, true, false, Option, none, some, List, [], ◌∷◌,
  contains, list_eq, nat_eq, option_eq, ltb, leb, length, keep, arith, All, subst,
}
use aiot_powerguard.Prelude.Result.{Result, done, refused}
use aiot_powerguard.Measure.{Floats}
use aiot_powerguard.Dataset.{Sample}
use aiot_powerguard.Prepare.{Refusal, PreparedData, prepare, kept}
use aiot_powerguard.Review.{Manifest, is_hardware}
use aiot_powerguard.Gate.{
  preparation_refused, too_few_train_windows, too_few_calibration_windows, too_few_normal,
  too_few_usable, evaluate_gate, gate_reasons, attestation_reasons, identity_reasons,
  witness_reasons, refusal_reasons, usable_of, window_reasons, prepared_of, is_normal, is_abnormal,
  when, has_placeholder,
}
use aiot_powerguard.Gate.Reasons.{
  both_empty, empty_eq, when-empty, not-ltb, attestation, identity, witnessing,
}

module _ {F : Type 0} (fl : Floats F) (gap : ℕ) (eighty_percent : ℕ → ℕ) where
  pub record IsPromotable (min_approved : ℕ) (m : Manifest F) (samples : List (Sample F))
      : Type 0 where
    pub attested : is_hardware m ≡ true
    pub filled :
        All
          (λ t. has_placeholder t ≡ false)
          (m.calibration_fingerprint ∷ m.firmware_version ∷ m.reviewed_by ∷ [])
    pub device : All (λ s. s.device_id ≡ m.device_id) samples
    pub regime : All (λ s. s.calibration_fingerprint ≡ some m.calibration_fingerprint) samples
    pub boot : All (λ s. contains m.boot_ids s.boot_id ≡ true) samples
    pub normal : min_approved ≤ length (keep is_normal samples)
    pub abnormal : 1 ≤ length (keep is_abnormal samples)
    pub events : 1 ≤ length m.labelled_events
    pub prepared :
        (p : PreparedData F) × (prepare fl 30 gap none none m.expected_seq_stride
            (keep is_normal samples)
          ≡ done p)
        × (min_approved ≤ kept p)
        × (50 ≤ (eighty_percent (kept p) + 1) - 30)
        × (20 ≤ ((kept p - eighty_percent (kept p)) + 1) - 30)

module _ {F : Type 0} (fl : Floats F) (gap : ℕ) (eighty_percent : ℕ → ℕ) where
  usable_windows :
      (n : ℕ)
      → 1 ≤ n
      → window_reasons eighty_percent n ≡ []
      → (50 ≤ (eighty_percent n + 1) - 30) × (20 ≤ ((n - eighty_percent n) + 1) - 30)
  unfolding window_reasons
  usable_windows n h k =
      let ripe : leb 1 n ≡ true = ground arith in
      let k' = rw ripe at k in
      let (a, b) =
        both_empty (when (ltb ((eighty_percent n + 1) - 30) 50) too_few_train_windows) _ k' in
      let c = when-empty (ltb ((eighty_percent n + 1) - 30) 50) too_few_train_windows a in
      let d =
        when-empty (ltb (((n - eighty_percent n) + 1) - 30) 20) too_few_calibration_windows b in
      (ground (arith, c), ground (arith, d))

  -- `prepare` was called, and came to something that is usable
  usable_data :
      (m : Manifest F) (samples : List (Sample F))
      → refusal_reasons (prepared_of fl gap m samples) ≡ []
      → 1 ≤ usable_of (prepared_of fl gap m samples)
      → (p : PreparedData F) × (prepare fl 30 gap none none m.expected_seq_stride samples ≡ done p)
        × (usable_of (prepared_of fl gap m samples) ≡ kept p)
  unfolding prepared_of
  usable_data m [] r u = absurd (ground arith)
  usable_data m (s ∷ samples) r u =
      by_outcome (prepare fl 30 gap none none m.expected_seq_stride (s ∷ samples)) refl
    where
      by_outcome :
          (o : Result Refusal (PreparedData F))
          → prepare fl 30 gap none none m.expected_seq_stride (s ∷ samples) ≡ o
          → (p : PreparedData F) × (prepare fl 30 gap none none m.expected_seq_stride (s ∷ samples)
              ≡ done p)
            × (usable_of (some (prepare fl 30 gap none none m.expected_seq_stride (s ∷ samples)))
                ≡ kept p)
      by_outcome (done p) e = (p, e, ap (λ o. usable_of (some o)) e)
      by_outcome (refused x) e =
          let bad : preparation_refused x ∷ [] ≡ [] =
            sym (ap (λ o. refusal_reasons (some o)) e) ∙ r in
          absurd cc

  gate_reasons-IsPromotable :
      (min_approved : ℕ) (m : Manifest F) (samples : List (Sample F))
      → 1 ≤ min_approved
      → gate_reasons fl gap eighty_percent min_approved m samples ≡ []
      → IsPromotable fl gap eighty_percent min_approved m samples
  unfolding gate_reasons
  gate_reasons-IsPromotable min_approved m samples positive h =
      let normal = keep is_normal samples in
      let prepared = prepared_of fl gap m normal in
      let (a, h1) = both_empty (attestation_reasons m) _ h in
      let (b, h2) = both_empty (identity_reasons m samples) _ h1 in
      let (c, h3) = both_empty (when (ltb (length normal) min_approved) too_few_normal) _ h2 in
      let (d, h4) = both_empty (witness_reasons m samples) _ h3 in
      let (e, h5) = both_empty (refusal_reasons prepared) _ h4 in
      let (f, g) = both_empty (when (ltb (usable_of prepared) min_approved) too_few_usable) _ h5 in
      let enough = not-ltb (length normal) min_approved (when-empty _ too_few_normal c) in
      let usable = not-ltb (usable_of prepared) min_approved (when-empty _ too_few_usable f) in
      let (p, made, count) = usable_data m normal e (omega (arith, positive, usable)) in
      let (train, calibration) =
        usable_windows (kept p) (omega (arith, positive, usable, count))
          (subst (λ n. window_reasons eighty_percent n ≡ []) count g) in
      let (attested, filled) = attestation m a in
      let (device, regime) = identity m samples b in
      let (boot, events, abnormal) = witnessing m samples d in
      record {
        attested = attested;
        filled = filled;
        device = device;
        regime = regime;
        boot = boot;
        normal = enough;
        abnormal = abnormal;
        events = events;
        prepared = (p, made, subst (λ n. min_approved ≤ n) count usable, train, calibration);
      }

pub evaluate_gate-IsPromotable :
    {F : Type 0} (fl : Floats F) (gap : ℕ) (eighty_percent : ℕ → ℕ) (min_approved : ℕ)
    (samples : List (Sample F)) (manifest : Option (Manifest F))
    → 1 ≤ min_approved
    → (evaluate_gate fl gap eighty_percent min_approved samples manifest).passed ≡ true
    → (m : Manifest F) × (manifest ≡ some m)
      × IsPromotable fl gap eighty_percent min_approved m samples
unfolding evaluate_gate
evaluate_gate-IsPromotable fl gap eighty_percent min_approved samples none positive h = absurd cc
evaluate_gate-IsPromotable fl gap eighty_percent min_approved samples (some m) positive h = (
  m,
  refl,
  gate_reasons-IsPromotable fl gap eighty_percent min_approved m samples positive
      (empty_eq (gate_reasons fl gap eighty_percent min_approved m samples) h),
)
