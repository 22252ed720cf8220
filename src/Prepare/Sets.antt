-- ===== src/Prepare/Sets.antt =====
-- Rows of one device, and rows of one calibration regime, from the sizes of the sets.
use aiot_powerguard.Prelude.{
  ◌≤◌, ◌≡◌, refl, Bool, true, false, not, ◌&&◌, List, [], ◌∷◌, list_eq, option_eq, nat_eq, leb,
  keep, length, map, arith, All, All-map, Bool-cases, inl, inr, ◌⊎◌,
}
use aiot_powerguard.Prelude.Result.{done, bind-done, demand-done}
use aiot_powerguard.Text.{Text}
use aiot_powerguard.Dataset.{Sample}
use aiot_powerguard.Prepare.{
  distinct, fingerprint_of, carries, named, unnamed, check_device, check_regime,
}
use aiot_powerguard.Prepare.Order.{distinct-All}

module _ {A : Type 0} where
  pub keep_holds : (p : A → Bool) (xs : List A) → All (λ x. p x ≡ true) (keep p xs)
  keep_holds p [] = tt
  keep_holds p (x ∷ xs) = elim (Bool-cases (p x)) [
    | inl e ↦ rw e (e, keep_holds p xs)
    | inr e ↦ rw e (keep_holds p xs)
  ]

  pub All-of_map :
      {B : Type 0} (P : B → Type 0) (f : A → B) (xs : List A)
      → All P (map f xs)
      → All (λ x. P (f x)) xs
  All-of_map P f [] h = tt
  All-of_map P f (x ∷ xs) h = (h.0, All-of_map P f xs h.1)

  keep_none : (p : A → Bool) (xs : List A) → All (λ _. ⊥) (keep p xs) → All (λ x. p x ≡ false) xs
  keep_none p [] h = tt
  keep_none p (x ∷ xs) h = elim (Bool-cases (p x)) [
    | inl e ↦ let h' : All (λ _. ⊥) (x ∷ keep p xs) = rw e at h in absurd h'.0
    | inr e ↦ let h' : All (λ _. ⊥) (keep p xs) = rw e at h in (e, keep_none p xs h')
  ]

  keep_every :
      (P : A → Type 0) (p : A → Bool) (xs : List A)
      → length (keep (λ x. not (p x)) xs) ≡ 0
      → All P (keep p xs)
      → All P xs
  keep_every P p [] n h = tt
  keep_every P p (x ∷ xs) n h = elim (Bool-cases (p x)) [
    | inl e ↦
        let h' : All P (x ∷ keep p xs) = rw e at h in (h'.0, keep_every P p xs (ground arith) h'.1)
    | inr e ↦ absurd (ground arith)
  ]

one_of :
    (xs : List Text)
    → leb (length (distinct xs)) 1 ≡ true
    → All (λ _. ⊥) xs ⊎ ((d : Text) × All (λ x. x ≡ d) xs × (1 ≤ length (distinct xs)))
one_of xs h = by_set (distinct xs) refl
  where
    by_set :
        (s : List Text)
        → distinct xs ≡ s
        → All (λ _. ⊥) xs ⊎ ((d : Text) × All (λ x. x ≡ d) xs × (1 ≤ length (distinct xs)))
    by_set [] e = inl (distinct-All (λ _. ⊥) xs (rw e tt))
    by_set (d ∷ []) e = inr (d, distinct-All (λ x. x ≡ d) xs (rw e (refl, tt)), rw e (omega arith))
    by_set (d ∷ c ∷ s) e = absurd (ground (arith, e, h))

module _ {F : Type 0} where
  pub one_device :
      (rows : List (Sample F)) (u : Unit {0})
      → check_device rows ≡ done u
      → (d : Text) × All (λ r. r.device_id ≡ d) rows
  unfolding check_device
  one_device rows u h =
      let few = demand-done (leb (length (distinct (map (λ r. r.device_id) rows))) 1) _ u h in
      elim (one_of (map (λ r. r.device_id) rows) few) [
        | inl n ↦ (
          [],
          All-of_map (λ x. x ≡ []) (λ r. r.device_id) rows
              (All-map {P = λ _. ⊥} (λ x k. absurd k) (map (λ r. r.device_id) rows) n),
        )
        | inr (d, a, _) ↦ (d, All-of_map (λ x. x ≡ d) (λ r. r.device_id) rows a)
      ]

  uncarried : (r : Sample F) → carries r ≡ false → fingerprint_of r.calibration_fingerprint ≡ []
  uncarried r h = ground arith

  pub one_regime :
      (rows : List (Sample F)) (u : Unit {0})
      → check_regime rows ≡ done u
      → (f : Text) × All (λ r. fingerprint_of r.calibration_fingerprint ≡ f) rows
  unfolding check_regime named
  one_regime rows u h =
      let (v, first, second) = bind-done _ _ u h in
      let few = demand-done (leb (length (named rows)) 1) _ v first in
      let both =
        demand-done (not (leb 1 (length (named rows)) && leb 1 (unnamed rows))) _ u second in
      let fp = λ (r : Sample F). fingerprint_of r.calibration_fingerprint in
      elim (one_of (map fp (keep carries rows)) few) [
        | inl n ↦ (
          [],
          All-map (λ r k. uncarried r k) rows
              (keep_none carries rows (All-of_map (λ _. ⊥) fp (keep carries rows) n)),
        )
        | inr (f, a, some_named) ↦
            let ripe : leb 1 (length (named rows)) ≡ true = ground arith in
            let every : unnamed rows ≡ 0 = ground arith in
            (
              f,
              keep_every (λ r. fp r ≡ f) carries rows every
                  (All-of_map (λ x. x ≡ f) fp (keep carries rows) a),
            )
      ]
