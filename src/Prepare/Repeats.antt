-- ===== src/Prepare/Repeats.antt =====
-- The rows that the loop with `seen` leaves out.
use mathlib.Core.List.{Perm, perm_middle}
use mathlib.Core.List.Perm
use aiot_powerguard.Prelude.{
  ℕ, ◌+◌, ◌≡◌, refl, Bool, true, not, ◌&&◌, ◌||◌, List, [], ◌∷◌, ◌++◌, contains, nat_eq,
  if◌then◌else◌, keep, length, map, arith, All, All-map, Bool-cases, inl, inr,
}
use aiot_powerguard.Dataset.{Sample}
use aiot_powerguard.Prepare.{dedupe}

module _ {A : Type 0} where
  pub length-keep-not :
      (p : A → Bool) (xs : List A)
      → length xs ≡ length (keep p xs) + length (keep (λ x. not (p x)) xs)
  length-keep-not p [] = refl
  length-keep-not p (x ∷ xs) = ground (arith, length-keep-not p xs)

  -- a filter of a filter, and what the second one leaves out
  pub keep-twice : (p q : A → Bool) (xs : List A) → keep p (keep q xs) ≡ keep (λ x. q x && p x) xs
  keep-twice p q [] = refl
  keep-twice p q (x ∷ xs) = ground (arith, keep-twice p q xs)

module _ {F : Type 0} where
  abbrev pub ids : List (Sample F) → List ℕ
  ids rows = map (λ row. row.id) rows

  unfoldable pub repeats : List ℕ → List (Sample F) → List (Sample F)
  repeats seen [] = []
  repeats seen (row ∷ rows) =
      let known = contains seen row.id in
      let rest = repeats (if known then seen else row.id ∷ seen) rows in
      if known then row ∷ rest else rest

  pub dedupe-repeats :
      (seen : List ℕ) (xs : List (Sample F)) → Perm (dedupe seen xs ++ repeats seen xs) xs
  unfolding dedupe repeats
  dedupe-repeats seen [] = Perm.rfl
  dedupe-repeats seen (x ∷ xs) = elim (Bool-cases (contains seen x.id)) [
    | inl e ↦ rw e (
        Perm.trans (perm_middle (dedupe seen xs) (repeats seen xs))
          (Perm.cons x (dedupe-repeats seen xs)))
    | inr e ↦ rw e (Perm.cons x (dedupe-repeats (x.id ∷ seen) xs))
  ]

  pub length-repeats :
      (seen : List ℕ) (xs : List (Sample F))
      → length (dedupe seen xs) + length (repeats seen xs) ≡ length xs
  unfolding dedupe repeats
  length-repeats seen [] = refl
  length-repeats seen (x ∷ xs) = elim (Bool-cases (contains seen x.id)) [
    | inl e ↦ rw e (omega (arith, length-repeats seen xs))
    | inr e ↦ rw e (omega (arith, length-repeats (x.id ∷ seen) xs))
  ]

  abbrev Known : List ℕ → List ℕ → Sample F → Type 0
  Known seen kept r = (contains seen r.id || contains kept r.id) ≡ true

  cons-Known :
      (n : ℕ) (seen kept : List ℕ) (r : Sample F)
      → Known (n ∷ seen) kept r
      → Known seen (n ∷ kept) r
  cons-Known n seen kept r h = ground arith

  -- the id of every repeat was seen before the loop or is that of a row that is not left out
  pub repeats-Known :
      (seen : List ℕ) (xs : List (Sample F))
      → All (Known seen (ids (dedupe seen xs))) (repeats seen xs)
  unfolding dedupe repeats
  repeats-Known seen [] = tt
  repeats-Known seen (x ∷ xs) = elim (Bool-cases (contains seen x.id)) [
    | inl e ↦ rw e (rw e refl, repeats-Known seen xs)
    | inr e ↦ rw e (
        All-map (cons-Known x.id seen (ids (dedupe (x.id ∷ seen) xs))) (repeats (x.id ∷ seen) xs)
          (repeats-Known (x.id ∷ seen) xs))
  ]
