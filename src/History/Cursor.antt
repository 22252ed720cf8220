-- ===== src/History/Cursor.antt =====
-- What a cursor leaves of a list whose ids fall, and a client that follows cursors.
use aiot_powerguard.Prelude.{
  ℕ, zero, suc, ◌≤◌, ◌<◌, ◌≡◌, refl, ap, Bool, true, false, ◌&&◌, Option, none, some, List, [], ◌∷◌,
  ◌++◌, list_eq, nat_eq, if◌then◌else◌, ltb, length, take, drop, keep, last?, All, All-map,
  All-keep, arith, subst, Bool-cases, inl, inr,
}
use aiot_powerguard.Prelude.Result.{Result, done, refused}
use aiot_powerguard.Entities.{Page}
use aiot_powerguard.Prepare.Order.{Pairwise}
use aiot_powerguard.History.{HistoryError, Columns, id_of}

module _ {A : Type 0} where
  pub keep-keep : (p q : A → Bool) (xs : List A) → keep p (keep q xs) ≡ keep (λ x. q x && p x) xs
  keep-keep p q [] = refl
  keep-keep p q (x ∷ xs) = elim (Bool-cases (q x)) [
    | inl e ↦ rw e (ap (λ w. if p x then x ∷ w else w) (keep-keep p q xs))
    | inr e ↦ rw e (keep-keep p q xs)
  ]

  pub keep-same : (p q : A → Bool) (xs : List A) → ((x : A) → p x ≡ q x) → keep p xs ≡ keep q xs
  keep-same p q [] h = refl
  keep-same p q (x ∷ xs) h = rw (h x) (ap (λ w. if q x then x ∷ w else w) (keep-same p q xs h))

  keep_all : (p : A → Bool) (xs : List A) → All (λ x. p x ≡ true) xs → keep p xs ≡ xs
  keep_all p [] h = refl
  keep_all p (x ∷ xs) h = rw (h.0) (ap (λ w. x ∷ w) (keep_all p xs h.1))

  pub keep-Pairwise :
      (R : A → A → Type 0) (p : A → Bool) (xs : List A) → Pairwise R xs → Pairwise R (keep p xs)
  keep-Pairwise R p [] h = tt
  keep-Pairwise R p (x ∷ xs) h = elim (Bool-cases (p x)) [
    | inl e ↦ rw e (All-keep (R x) p xs h.0, keep-Pairwise R p xs h.1)
    | inr e ↦ rw e (keep-Pairwise R p xs h.1)
  ]

  pub take-take : (n m : ℕ) (xs : List A) → n ≤ m → take n (take m xs) ≡ take n xs
  take-take zero m xs h = refl
  take-take (suc n) zero xs h = absurd (omega arith)
  take-take (suc n) (suc m) [] h = refl
  take-take (suc n) (suc m) (x ∷ xs) h = ap (λ w. x ∷ w) (take-take n m xs (omega arith))

  pub All-take : (P : A → Type 0) (n : ℕ) (xs : List A) → All P xs → All P (take n xs)
  All-take P zero xs h = tt
  All-take P (suc n) [] h = tt
  All-take P (suc n) (x ∷ xs) h = (h.0, All-take P n xs h.1)

  pub take-append-rest : (n : ℕ) (xs : List A) → take n xs ++ drop n xs ≡ xs
  take-append-rest zero xs = refl
  take-append-rest (suc n) [] = refl
  take-append-rest (suc n) (x ∷ xs) = ap (λ w. x ∷ w) (take-append-rest n xs)

module _ {A : Type 0} (view : A → Columns) where
  -- a later row has a smaller id
  abbrev pub IsOlder : A → A → Type 0
  IsOlder x y = (view y).id < (view x).id

  pub last-id :
      (P : ℕ → Type 0) (xs : List A) (b : ℕ)
      → id_of view (last? xs) ≡ some b
      → All (λ y. P (view y).id) xs
      → P b
  last-id P [] b e h = absurd cc
  last-id P (x ∷ []) b e h = let same : (view x).id ≡ b = ground arith in subst P same h.0
  last-id P (x ∷ y ∷ ys) b e h = last-id P (y ∷ ys) b e h.1

  -- the cursor leaves what follows the page
  pub cursor-drop :
      (n : ℕ) (xs : List A) (b : ℕ)
      → Pairwise IsOlder xs
      → 1 ≤ n
      → id_of view (last? (take n xs)) ≡ some b
      → keep (λ x. ltb (view x).id b) xs ≡ drop n xs
  cursor-drop zero xs b h k e = absurd (omega arith)
  cursor-drop (suc n) [] b h k e = refl
  cursor-drop (suc zero) (x ∷ xs) b h k e =
      let same : (view x).id ≡ b = ground arith in
      let first : ltb (view x).id b ≡ false = ground arith in
      rw first (keep_all (λ y. ltb (view y).id b) xs (All-map (λ y l. ground arith) xs h.0))
  cursor-drop (suc (suc n)) (x ∷ []) b h k e =
      let same : (view x).id ≡ b = ground arith in
      let first : ltb (view x).id b ≡ false = ground arith in rw first refl
  cursor-drop (suc (suc n)) (x ∷ y ∷ ys) b h k e =
      let older : b < (view x).id =
        last-id (λ i. i < (view x).id) (take (suc n) (y ∷ ys)) b e
          (All-take (IsOlder x) (suc n) (y ∷ ys) h.0) in
      let first : ltb (view x).id b ≡ false = ground arith in
      rw first (cursor-drop (suc n) (y ∷ ys) b h.1 (omega arith) e)

  pub last-some : (xs : List A) → 1 ≤ length xs → (b : ℕ) × (id_of view (last? xs) ≡ some b)
  last-some [] h = absurd (omega arith)
  last-some (x ∷ []) h = ((view x).id, refl)
  last-some (x ∷ y ∷ ys) h = last-some (y ∷ ys) (omega arith)

module _ {A : Type 0} where
  abbrev pub rest_of : (Option ℕ → List A) → Option ℕ → List A
  rest_of more none = []
  rest_of more (some b) = more (some b)

  abbrev pub items_of : Result HistoryError (Page A) → (Option ℕ → List A) → List A
  items_of (refused e) more = []
  items_of (done p) more = p.items ++ rest_of more p.next_before_id

  -- What a client gets that follows `next_before_id` for at most `fuel` pages.
  abbrev pub follow : (Option ℕ → Result HistoryError (Page A)) → ℕ → Option ℕ → List A
  follow page zero before_id = []
  follow page (suc fuel) before_id = items_of (page before_id) (follow page fuel)
