-- ===== src/Prepare/Order.antt =====
-- The order of the rows, and their ids.
use aiot_powerguard.Prelude.{
  ℕ, ◌+◌, ◌≤◌, ◌≡◌, ◌≢◌, refl, Bool, true, false, List, [], ◌∷◌, ◌++◌, contains, list_eq, nat_eq,
  keep, length, arith, All, All-map, Bool-cases, inl, inr,
}
use aiot_powerguard.Text.{Text}
use aiot_powerguard.Dataset.{Sample}
use aiot_powerguard.Segments.Cut.{concat}
use aiot_powerguard.Prepare.{distinct, before, sort_in, sort, dedupe}

-- every element stands in the relation to every later one
abbrev pub Pairwise : {A : Type 0} → (A → A → Type 0) → List A → Type 0
Pairwise R [] = Unit
Pairwise R (x ∷ xs) = All (R x) xs × Pairwise R xs

module _ {A : Type 0} where
  All-swap :
      (P : A → Type 0) (s t u : List A) → (All P t → All P u) → All P (s ++ t) → All P (s ++ u)
  All-swap P [] t u k h = k h
  All-swap P (y ∷ s) t u k h = (h.0, All-swap P s t u k h.1)

  -- a part of the list that keeps what holds of all of it may take its place
  pub Pairwise-swap :
      (R : A → A → Type 0) (s t u : List A)
      → ((P : A → Type 0) → All P t → All P u)
      → Pairwise R u
      → Pairwise R (s ++ t)
      → Pairwise R (s ++ u)
  Pairwise-swap R [] t u k hu h = hu
  Pairwise-swap R (x ∷ s) t u k hu h =
      (All-swap (R x) s t u (k (R x)) h.0, Pairwise-swap R s t u k hu h.1)

  Pairwise-tail : (R : A → A → Type 0) (s t : List A) → Pairwise R (s ++ t) → Pairwise R t
  Pairwise-tail R [] t h = h
  Pairwise-tail R (x ∷ s) t h = Pairwise-tail R s t h.1

  All-tail : (P : A → Type 0) (s t : List A) → All P (s ++ t) → All P t
  All-tail P [] t h = h
  All-tail P (x ∷ s) t h = All-tail P s t h.1

  pub All-concat_keep :
      (P : A → Type 0) (p : List A → Bool) (ss : List (List A))
      → All P (concat ss)
      → All P (concat (keep p ss))
  All-concat_keep P p [] h = tt
  All-concat_keep P p (s ∷ ss) h =
      let rest = All-concat_keep P p ss (All-tail P s (concat ss) h) in
      elim (Bool-cases (p s)) [
        | inl e ↦ rw e (All-swap P s (concat ss) (concat (keep p ss)) (λ _. rest) h)
        | inr e ↦ rw e rest
      ]

  pub Pairwise-concat-keep :
      (R : A → A → Type 0) (p : List A → Bool) (ss : List (List A))
      → Pairwise R (concat ss)
      → Pairwise R (concat (keep p ss))
  Pairwise-concat-keep R p [] h = tt
  Pairwise-concat-keep R p (s ∷ ss) h =
      let rest = Pairwise-concat-keep R p ss (Pairwise-tail R s (concat ss) h) in
      elim (Bool-cases (p s)) [
        | inl e ↦ rw e (
            Pairwise-swap R s (concat ss) (concat (keep p ss)) (λ P. All-concat_keep P p ss) rest h)
        | inr e ↦ rw e rest
      ]

  pub All-zip : (P Q : A → Type 0) (xs : List A) → All P xs → All Q xs → All (λ x. P x × Q x) xs
  All-zip P Q [] h k = tt
  All-zip P Q (x ∷ xs) h k = ((h.0, k.0), All-zip P Q xs h.1 k.1)

pub contains-All :
    (P : Text → Type 0) (xs : List Text) (x : Text) → contains xs x ≡ true → All P xs → P x
contains-All P [] x e h = absurd cc
contains-All P (y ∷ ys) x e h = ground (arith, contains-All P ys x)

pub distinct-All : (P : Text → Type 0) (xs : List Text) → All P (distinct xs) → All P xs
unfolding distinct
distinct-All P [] h = tt
distinct-All P (x ∷ xs) h = elim (Bool-cases (contains (distinct xs) x)) [
  | inl e ↦
      let h' : All P (distinct xs) = rw e at h in
      (contains-All P (distinct xs) x e h', distinct-All P xs h')
  | inr e ↦ let h' : All P (x ∷ distinct xs) = rw e at h in (h'.0, distinct-All P xs h'.1)
]

module _ {F : Type 0} where
  before_trans : (a b c : Sample F) → before a b ≡ true → before b c ≡ true → before a c ≡ true
  before_trans a b c h k = ground arith

  before_total : (a b : Sample F) → before a b ≡ false → before b a ≡ true
  before_total a b h = ground arith

  abbrev pub IsBefore : Sample F → Sample F → Type 0
  IsBefore a b = before a b ≡ true

  All-sort_in :
      (P : Sample F → Type 0) (x : Sample F) (ys : List (Sample F))
      → P x
      → All P ys
      → All P (sort_in x ys)
  unfolding sort_in
  All-sort_in P x [] p h = (p, tt)
  All-sort_in P x (y ∷ ys) p h = elim (Bool-cases (before x y)) [
    | inl e ↦ rw e (p, h)
    | inr e ↦ rw e (h.0, All-sort_in P x ys p h.1)
  ]

  pub All-sort : (P : Sample F → Type 0) (xs : List (Sample F)) → All P xs → All P (sort xs)
  unfolding sort
  All-sort P [] h = tt
  All-sort P (x ∷ xs) h = All-sort_in P x (sort xs) h.0 (All-sort P xs h.1)

  length-sort_in : (x : Sample F) (ys : List (Sample F)) → length (sort_in x ys) ≡ length ys + 1
  unfolding sort_in
  length-sort_in x [] = refl
  length-sort_in x (y ∷ ys) = ground (arith, length-sort_in x ys)

  pub length-sort : (xs : List (Sample F)) → length (sort xs) ≡ length xs
  unfolding sort
  length-sort [] = refl
  length-sort (x ∷ xs) = omega (arith, length-sort_in x (sort xs), length-sort xs)

  sort_in-Pairwise :
      (x : Sample F) (ys : List (Sample F))
      → Pairwise IsBefore ys
      → Pairwise IsBefore (sort_in x ys)
  unfolding sort_in
  sort_in-Pairwise x [] h = (tt, tt)
  sort_in-Pairwise x (y ∷ ys) h = elim (Bool-cases (before x y)) [
    | inl e ↦
        rw e
          ((e, All-map {P = IsBefore y} {Q = IsBefore x} (λ c k. before_trans x y c e k) ys h.0), h)
    | inr e ↦
        rw e (All-sort_in (IsBefore y) x ys (before_total x y e) h.0, sort_in-Pairwise x ys h.1)
  ]

  pub sort-Pairwise : (xs : List (Sample F)) → Pairwise IsBefore (sort xs)
  unfolding sort
  sort-Pairwise [] = tt
  sort-Pairwise (x ∷ xs) = sort_in-Pairwise x (sort xs) (sort-Pairwise xs)

  pub All-dedupe :
      (P : Sample F → Type 0) (seen : List ℕ) (xs : List (Sample F))
      → All P xs
      → All P (dedupe seen xs)
  unfolding dedupe
  All-dedupe P seen [] h = tt
  All-dedupe P seen (x ∷ xs) h = elim (Bool-cases (contains seen x.id)) [
    | inl e ↦ rw e (All-dedupe P seen xs h.1)
    | inr e ↦ rw e (h.0, All-dedupe P (x.id ∷ seen) xs h.1)
  ]

  abbrev IsNew : List ℕ → Sample F → Type 0
  IsNew seen x = contains seen x.id ≡ false

  less_seen : (n : ℕ) (seen : List ℕ) (x : Sample F) → IsNew (n ∷ seen) x → IsNew seen x
  less_seen n seen x h = ground arith

  not_seen : (n : ℕ) (seen : List ℕ) (x : Sample F) → IsNew (n ∷ seen) x → x.id ≢ n
  not_seen n seen x h e = ground arith

  dedupe-IsNew : (seen : List ℕ) (xs : List (Sample F)) → All (IsNew seen) (dedupe seen xs)
  unfolding dedupe
  dedupe-IsNew seen [] = tt
  dedupe-IsNew seen (x ∷ xs) = elim (Bool-cases (contains seen x.id)) [
    | inl e ↦ rw e (dedupe-IsNew seen xs)
    | inr e ↦
        rw e (
          e,
          All-map (less_seen x.id seen) (dedupe (x.id ∷ seen) xs) (dedupe-IsNew (x.id ∷ seen) xs),
        )
  ]

  -- in the order of the backend, and another row
  abbrev pub IsAfter : Sample F → Sample F → Type 0
  IsAfter a b = (before a b ≡ true) × (b.id ≢ a.id)

  pub dedupe-Pairwise :
      (seen : List ℕ) (xs : List (Sample F))
      → Pairwise IsBefore xs
      → Pairwise IsAfter (dedupe seen xs)
  unfolding dedupe
  dedupe-Pairwise seen [] h = tt
  dedupe-Pairwise seen (x ∷ xs) h = elim (Bool-cases (contains seen x.id)) [
    | inl e ↦ rw e (dedupe-Pairwise seen xs h.1)
    | inr e ↦
        let rest = dedupe (x.id ∷ seen) xs in
        let new : All (λ y. y.id ≢ x.id) rest =
          All-map (not_seen x.id seen) rest (dedupe-IsNew (x.id ∷ seen) xs) in
        rw e (
          All-zip (IsBefore x) (λ y. y.id ≢ x.id) rest
              (All-dedupe (IsBefore x) (x.id ∷ seen) xs h.0) new,
          dedupe-Pairwise (x.id ∷ seen) xs h.1,
        )
  ]

  pub length-dedupe : (seen : List ℕ) (xs : List (Sample F)) → length (dedupe seen xs) ≤ length xs
  unfolding dedupe
  length-dedupe seen [] = omega arith
  length-dedupe seen (x ∷ xs) =
      ground (arith, length-dedupe seen xs, length-dedupe (x.id ∷ seen) xs)
