-- ===== src/Prepare/Split.antt =====
-- The split of the usable rows in time order.
use mathlib.Core.List.Perm
use mathlib.Core.List.{Perm}
use aiot_powerguard.Prelude.{
  ℕ, zero, suc, min, ◌≡◌, refl, sym, ap, ◌∙◌, List, [], ◌∷◌, ◌++◌, take, drop, length, length-take,
  subst, Bool-cases, inl, inr, ◌&&◌, ◌⊎◌, true, false,
}
use aiot_powerguard.Dataset.{Sample}
use aiot_powerguard.Prelude.Int.{pos}
use aiot_powerguard.Prelude.Result.{done, refused}
use aiot_powerguard.Measure.{Floats}
use aiot_powerguard.Prepare.{TimeSplit, bad_fraction, before, sort_in, sort, time_split}
use aiot_powerguard.Prepare.Order.{Pairwise, IsBefore, sort-Pairwise, length-sort}

take-append-drop : {A : Type 0} (n : ℕ) (xs : List A) → take n xs ++ drop n xs ≡ xs
take-append-drop zero xs = refl
take-append-drop (suc n) [] = refl
take-append-drop (suc n) (x ∷ xs) = ap (λ w. x ∷ w) (take-append-drop n xs)

module _ {F : Type 0} where
  sort_in-perm : (x : Sample F) (ys : List (Sample F)) → Perm (sort_in x ys) (x ∷ ys)
  unfolding sort_in
  sort_in-perm x [] = Perm.rfl
  sort_in-perm x (y ∷ ys) = elim (Bool-cases (before x y)) [
    | inl e ↦ rw e Perm.rfl
    | inr e ↦ rw e (Perm.trans (Perm.cons y (sort_in-perm x ys)) (Perm.swap x y ys))
  ]

  pub sort-perm : (xs : List (Sample F)) → Perm (sort xs) xs
  unfolding sort
  sort-perm [] = Perm.rfl
  sort-perm (x ∷ xs) = Perm.trans (sort_in-perm x (sort xs)) (Perm.cons x (sort-perm xs))

  -- what `time_split` returns, by the number of training rows
  parts-Pairwise :
      (at : ℕ) (rows : List (Sample F))
      → Perm (take at (sort rows) ++ drop at (sort rows)) rows
        × Pairwise IsBefore (take at (sort rows) ++ drop at (sort rows))
        × (length (take at (sort rows)) ≡ min at (length rows))
  parts-Pairwise at rows =
      let whole = take-append-drop at (sort rows) in
      (
        subst (λ w. Perm w rows) (sym whole) (sort-perm rows),
        subst (Pairwise IsBefore) (sym whole) (sort-Pairwise rows),
        length-take at (sort rows) ∙ ap (min at) (length-sort rows),
      )

-- When `time_split` returns, the fraction is strictly between 0 and 1 and the two parts make up the
-- rows: the training part and then the calibration part are the rows in the order of time and id, so
-- every training row comes before every calibration row. The training part has as many rows as the
-- product of their number and the fraction says, cut to a whole number, if there are so many. For
-- any other fraction `time_split` refuses.
pub time_split-Pairwise :
    {F : Type 0} (fl : Floats F) (truncated : F → ℕ) (train_fraction : F) (rows : List (Sample F))
    → let is_fraction =
        fl.lt fl.zero_f train_fraction && fl.lt train_fraction (fl.of_int (pos 1)) in
      ((is_fraction ≡ false) × (time_split fl truncated train_fraction rows ≡ refused bad_fraction))
      ⊎ ((is_fraction ≡ true)
          × ((split : TimeSplit F) × (time_split fl truncated train_fraction rows ≡ done split)
              × Perm (split.train ++ split.calibration) rows
              × Pairwise IsBefore (split.train ++ split.calibration)
              × (length split.train
                  ≡ min
                      (truncated (fl.mul (fl.of_int (pos (length rows))) train_fraction))
                      (length rows))))
unfolding time_split
time_split-Pairwise {F} fl truncated train_fraction rows =
    let rows_of = λ (n : ℕ). truncated (fl.mul (fl.of_int (pos n)) train_fraction) in
    let at = rows_of (length (sort rows)) in
    let split : TimeSplit F = record {
      train = take at (sort rows);
      calibration = drop at (sort rows);
    } in
    let (perm, ordered, size) = parts-Pairwise at rows in
    elim (Bool-cases (fl.lt fl.zero_f train_fraction && fl.lt train_fraction (fl.of_int (pos 1)))) [
      | inr e ↦ inl (e, rw e refl)
      | inl e ↦ inr (
        e,
        (
          split,
          rw e refl,
          perm,
          ordered,
          size ∙ ap (λ n. min (rows_of n) (length rows)) (length-sort rows),
        ),
      )
    ]
