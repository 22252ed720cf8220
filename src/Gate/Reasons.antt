-- ===== src/Gate/Reasons.antt =====
-- What it means that a group of reasons is empty.
use aiot_powerguard.Prelude.{
  ℕ, ◌≤◌, ◌≡◌, refl, ap, Bool, true, false, not, Option, none, some, List, [], ◌∷◌, ◌++◌, ◌==◌,
  contains, list_eq, nat_eq, option_eq, if◌then◌else◌, ltb, length, keep, map, arith, All, All-map,
  Bool-cases, inl, inr,
}
use aiot_powerguard.Text.{Text, codes}
use aiot_powerguard.Dataset.{Sample}
use aiot_powerguard.Prepare.{fingerprint_of}
use aiot_powerguard.Prepare.Order.{distinct-All, All-zip}
use aiot_powerguard.Prepare.Sets.{All-of_map}
use aiot_powerguard.Review.{Manifest, is_hardware}
use aiot_powerguard.Gate.{
  Reason, not_hardware, placeholders_left, devices_mixed, other_device, fingerprint_absent,
  regimes_mixed, regime_differs, no_boots, unwitnessed_boots, no_events, no_abnormal,
  attestation_reasons, identity_reasons, witness_reasons, is_abnormal, is_empty, unfilled, when,
  compare_one, devices, fingerprints, boots, boot_reasons, has_placeholder,
}

module _ {A : Type 0} where
  pub both_empty : (xs ys : List A) → xs ++ ys ≡ [] → (xs ≡ []) × (ys ≡ [])
  both_empty [] ys h = (refl, h)
  both_empty (x ∷ xs) ys h = absurd cc

  not_empty : (xs : List A) → is_empty xs ≡ false → 1 ≤ length xs
  not_empty [] h = absurd cc
  not_empty (x ∷ xs) h = omega arith

  pub empty_eq : (xs : List A) → is_empty xs ≡ true → xs ≡ []
  empty_eq [] h = refl
  empty_eq (x ∷ xs) h = absurd cc

pub when-empty : (b : Bool) (r : Reason) → when b r ≡ [] → b ≡ false
when-empty true r h = absurd cc
when-empty false r h = refl

compare_one-empty :
    (expected : Text) (ds : List Text) (a b : Reason)
    → compare_one expected ds a b ≡ []
    → All (λ d. d ≡ expected) ds
compare_one-empty expected [] a b h = tt
compare_one-empty expected (d ∷ []) a b h =
    let k = when-empty (not (d == expected)) b h in (ground arith, tt)
compare_one-empty expected (d ∷ e ∷ ds) a b h = absurd cc

absent-All : (xs : List Text) → contains xs [] ≡ false → All (λ x. is_empty x ≡ false) xs
absent-All [] h = tt
absent-All ([] ∷ xs) h = absurd (ground arith)
absent-All ((c ∷ s) ∷ xs) h = (refl, absent-All xs (ground arith))

some_of :
    (o : Option Text) (f : Text)
    → fingerprint_of o ≡ f
    → is_empty (fingerprint_of o) ≡ false
    → o ≡ some f
some_of none f h k = absurd cc
some_of (some g) f h k = ap some h

one_label :
    (b : Bool) (t : Text) (rest : List Text)
    → (if b then t ∷ [] else []) ++ rest ≡ []
    → (b ≡ false) × (rest ≡ [])
one_label true t rest h = absurd cc
one_label false t rest h = (refl, h)

All-unkeep :
    {A : Type 0} (P : A → Type 0) (p : A → Bool) (xs : List A)
    → All (λ x. p x ≡ true) xs
    → All P (keep p xs)
    → All P xs
All-unkeep P p [] h k = tt
All-unkeep P p (x ∷ xs) h k =
    let k' : All P (x ∷ keep p xs) = rw h.0 at k in (k'.0, All-unkeep P p xs h.1 k'.1)

-- members that are not kept
kept_none : {A : Type 0} (p : A → Bool) (xs : List A) → keep p xs ≡ [] → All (λ x. p x ≡ false) xs
kept_none p [] h = tt
kept_none p (x ∷ xs) h = elim (Bool-cases (p x)) [
  | inl e ↦ absurd (ground arith)
  | inr e ↦ (e, kept_none p xs (ground arith))
]

pub not-ltb : (a b : ℕ) → ltb a b ≡ false → b ≤ a
not-ltb a b h = ground arith

not-false : (b : Bool) → not b ≡ false → b ≡ true
not-false b h = ground arith

module _ {F : Type 0} (m : Manifest F) where
  pub attestation :
      attestation_reasons m ≡ []
      → (is_hardware m ≡ true)
        × All
            (λ t. has_placeholder t ≡ false)
            (m.calibration_fingerprint ∷ m.firmware_version ∷ m.reviewed_by ∷ [])
  unfolding attestation_reasons
  attestation h =
      let (a, b) = both_empty (when (not (is_hardware m)) not_hardware) _ h in
      let c = not-false (is_hardware m) (when-empty (not (is_hardware m)) not_hardware a) in
      let d =
        empty_eq (unfilled m)
          (not-false (is_empty (unfilled m)) (when-empty _ (placeholders_left (unfilled m)) b)) in
      let (e, rest) = one_label (has_placeholder m.calibration_fingerprint) _ _ d in
      let (f, last) = one_label (has_placeholder m.firmware_version) _ _ rest in
      let (g, _) =
        one_label (has_placeholder m.reviewed_by) (codes "reviewed_by") [] (ground (arith, last)) in
      (c, (e, (f, (g, tt))))

module _ {F : Type 0} (m : Manifest F) (samples : List (Sample F)) where
  pub identity :
      identity_reasons m samples ≡ []
      → All (λ s. s.device_id ≡ m.device_id) samples
        × All (λ s. s.calibration_fingerprint ≡ some m.calibration_fingerprint) samples
  unfolding identity_reasons
  identity h =
      let fp = λ (s : Sample F). fingerprint_of s.calibration_fingerprint in
      let (a, rest) =
        both_empty (compare_one m.device_id (devices samples) devices_mixed other_device) _ h in
      let (b, c) =
        both_empty (when (contains (fingerprints samples) []) fingerprint_absent) _ rest in
      let filled = absent-All (fingerprints samples) (when-empty _ fingerprint_absent b) in
      let is_named = λ (f : Text). not (is_empty f) in
      let same =
        All-unkeep (λ f. f ≡ m.calibration_fingerprint) is_named (fingerprints samples)
          (All-map (λ f k. ap not k) (fingerprints samples) filled)
          (compare_one-empty m.calibration_fingerprint (keep is_named (fingerprints samples))
            regimes_mixed regime_differs c) in
      let same_row =
        All-of_map _ fp samples
          (distinct-All (λ f. f ≡ m.calibration_fingerprint) (map fp samples) same) in
      let filled_row =
        All-of_map _ fp samples (distinct-All (λ f. is_empty f ≡ false) (map fp samples) filled) in
      (
        All-of_map (λ d. d ≡ m.device_id) (λ s. s.device_id) samples
            (distinct-All (λ d. d ≡ m.device_id) (map (λ s. s.device_id) samples)
              (compare_one-empty m.device_id (devices samples) devices_mixed other_device a)),
        All-map (λ s k. some_of s.calibration_fingerprint m.calibration_fingerprint k.0 k.1) samples
            (All-zip (λ s. fp s ≡ m.calibration_fingerprint) (λ s. is_empty (fp s) ≡ false) samples
              same_row filled_row),
      )

  pub witnessing :
      witness_reasons m samples ≡ []
      → All (λ s. contains m.boot_ids s.boot_id ≡ true) samples
        × (1 ≤ length m.labelled_events)
        × (1 ≤ length (keep is_abnormal samples))
  unfolding witness_reasons
  witnessing h =
      let (a, b) = both_empty (boot_reasons m samples) _ h in
      let unwitnessed = λ (t : Text). not (contains m.boot_ids t) in
      elim (Bool-cases (is_empty m.boot_ids)) [
        | inl e ↦ let a' : no_boots ∷ [] ≡ [] = rw e at a in absurd cc
        | inr e ↦ elim (Bool-cases (is_empty m.labelled_events)) [
          | inl k ↦ let b' : no_events ∷ [] ≡ [] = rw k at b in absurd cc
          | inr k ↦
              let a' : when (not (is_empty (keep unwitnessed (boots samples))))
                    (unwitnessed_boots (keep unwitnessed (boots samples)))
                  ≡ [] =
                rw e at a in
              let b' : when (is_empty (keep is_abnormal samples)) no_abnormal ≡ [] = rw k at b in
              let n = empty_eq (keep unwitnessed (boots samples)) (
                not-false _
                  (when-empty _ (unwitnessed_boots (keep unwitnessed (boots samples))) a')) in
              (
                All-of_map (λ t. contains m.boot_ids t ≡ true) (λ s. s.boot_id) samples
                    (distinct-All (λ t. contains m.boot_ids t ≡ true) (map (λ s. s.boot_id) samples)
                      (All-map (λ t j. not-false (contains m.boot_ids t) j) (boots samples)
                        (kept_none unwitnessed (boots samples) n))),
                not_empty m.labelled_events k,
                not_empty (keep is_abnormal samples) (when-empty _ no_abnormal b'),
              )
        ]
      ]
