-- ===== src/Review/Intervals.antt =====
-- The intervals and the other parts of a manifest that is accepted.
use aiot_powerguard.Prelude.{
  ℕ, zero, suc, ◌≤◌, ◌<◌, ◌≡◌, refl, Bool, true, false, not, ◌&&◌, some, List, [], ◌∷◌, list_eq,
  nat_eq, leb, length, all_of, any_of, keep, arith, All, Bool-cases, Option-cases, inl, inr,
  &&-eq-true, subst,
}
use aiot_powerguard.Prelude.Int.{pos, negsuc}
use aiot_powerguard.Prelude.Result.{Result, done, refused, bind-done, demand-then, done-injective}
use aiot_powerguard.Text.{Text, codes}
use aiot_powerguard.Json.{
  Json, Items, Members, Builtins, null, bool, int, float, str, array, object, nil, item, get,
  is_filled,
}
use aiot_powerguard.Review.{
  ReviewError, Interval, covers, parse_time, zero_or_one, label_of, present, parse_interval,
  parse_intervals, stride_at, filled_texts, is_missing, overlaps, apart, some_item, bad_label,
  empty_interval,
}

pub not-true : (b : Bool) → not b ≡ true → b ≡ false
not-true b h = ground arith

pub not-false : (b : Bool) → not b ≡ false → b ≡ true
not-false b h = ground arith

abbrev pub IsSpan : Interval → Type 0
IsSpan i = (i.start < i.end) × (i.label ≤ 1)

all_of-All :
    {A : Type 0} (p : A → Bool) (xs : List A) → all_of p xs ≡ true → All (λ x. p x ≡ true) xs
all_of-All p [] h = tt
all_of-All p (x ∷ xs) h = let (a, b) = &&-eq-true (p x) (all_of p xs) h in (a, all_of-All p xs b)

pub none_kept :
    (p : Text → Bool) (xs : List Text) → is_missing (keep p xs) ≡ false → All (λ x. p x ≡ false) xs
none_kept p [] h = tt
none_kept p (x ∷ xs) h = elim (Bool-cases (p x)) [
  | inl e ↦ absurd (ground arith)
  | inr e ↦ (e, none_kept p xs (ground arith))
]

-- no moment is in both of two intervals that do not overlap
apart-covers : (a e : Interval) (t : ℕ) → overlaps a e ≡ false → (covers a t && covers e t) ≡ false
unfolding overlaps covers
apart-covers a e t h = ground arith

apart_one :
    (a : Interval) (es : List Interval) (t : ℕ)
    → all_of (λ e. not (overlaps a e)) es ≡ true
    → (covers a t && any_of (λ e. covers e t) es) ≡ false
apart_one a [] t h = ground arith
apart_one a (e ∷ es) t h = ground (arith, apart-covers a e t, apart_one a es t)

pub apart-any_of :
    (ns es : List Interval) (t : ℕ)
    → apart ns es ≡ true
    → (any_of (λ a. covers a t) ns && any_of (λ e. covers e t) es) ≡ false
unfolding apart
apart-any_of [] es t h = refl
apart-any_of (a ∷ ns) es t h =
    let (one, rest) = &&-eq-true _ _ h in
    let x = apart_one a es t one in let y = apart-any_of ns es t rest in ground arith

module _ {F : Type 0} (py : Builtins F) where
  zero_or_one-le : (v : Json F) (n : ℕ) → zero_or_one py v ≡ some n → n ≤ 1
  zero_or_one-le null n h = absurd cc
  zero_or_one-le (bool false) n h = ground arith
  zero_or_one-le (bool true) n h = ground arith
  zero_or_one-le (int (pos zero)) n h = ground arith
  zero_or_one-le (int (pos (suc zero))) n h = ground arith
  zero_or_one-le (int (pos (suc (suc k)))) n h = absurd cc
  zero_or_one-le (int (negsuc k)) n h = absurd cc
  zero_or_one-le (float f) n h = ground arith
  zero_or_one-le (str s) n h = absurd cc
  zero_or_one-le (array xs) n h = absurd cc
  zero_or_one-le (object o) n h = absurd cc

  label_of-le :
      (label : ℕ) (payload : Members F) (n : ℕ)
      → label ≤ 1
      → label_of py label payload ≡ done n
      → n ≤ 1
  unfolding label_of
  label_of-le label payload n le h = elim (Option-cases (get (codes "label") payload)) [
    | inl e ↦
        let h' : ◌≡◌ {A = Result ReviewError ℕ} (done label) (done n) = rw (e, label_of) at h in
        subst (λ k. k ≤ 1) (done-injective label n h') le
    | inr (v, e) ↦ elim (Option-cases (zero_or_one py v)) [
      | inl z ↦ let h' : refused bad_label ≡ done n = rw (e, z, label_of) at h in absurd cc
      | inr (k, z) ↦
          let h' : ◌≡◌ {A = Result ReviewError ℕ} (done k) (done n) = rw (e, z, label_of) at h in
          subst (λ k. k ≤ 1) (done-injective k n h') (zero_or_one-le v k z)
    ]
  ]

  parse_interval-IsSpan :
      (label : ℕ) (v : Json F) (i : Interval)
      → label ≤ 1
      → parse_interval py label v ≡ done i
      → IsSpan i
  unfolding parse_interval
  parse_interval-IsSpan label (object payload) i le h =
      let (from, _, h1) = bind-done (present py (codes "from") payload) _ i h in
      let (to, _, h2) = bind-done (present py (codes "to") payload) _ i h1 in
      let (start, _, h3) = bind-done (parse_time py from) _ i h2 in
      let (end, _, h4) = bind-done (parse_time py to) _ i h3 in
      let (later, h5) = demand-then (not (leb end start)) empty_interval _ i h4 in
      let (declared, d, h6) = bind-done (label_of py label payload) _ i h5 in
      let e = done-injective _ i h6 in
      subst IsSpan e (ground arith, label_of-le label payload declared le d)
  parse_interval-IsSpan label null i le h = absurd cc
  parse_interval-IsSpan label (bool b) i le h = absurd cc
  parse_interval-IsSpan label (int n) i le h = absurd cc
  parse_interval-IsSpan label (float f) i le h = absurd cc
  parse_interval-IsSpan label (str s) i le h = absurd cc
  parse_interval-IsSpan label (array xs) i le h = absurd cc

  pub parse_intervals-IsSpan :
      (label : ℕ) (vs : Items F) (is : List Interval)
      → label ≤ 1
      → parse_intervals py label vs ≡ done is
      → All IsSpan is
  unfolding parse_intervals
  parse_intervals-IsSpan label nil is le h = subst (All IsSpan) (done-injective [] is h) tt
  parse_intervals-IsSpan label (item v rest) is le h =
      let (i, one, h1) = bind-done (parse_interval py label v) _ is h in
      let (others, more, h2) = bind-done (parse_intervals py label rest) _ is h1 in
      subst (All IsSpan) (done-injective (i ∷ others) is h2)
        (parse_interval-IsSpan label v i le one, parse_intervals-IsSpan label rest others le more)

  pub some_interval :
      (label : ℕ) (vs : Items F) (is : List Interval)
      → some_item vs ≡ true
      → parse_intervals py label vs ≡ done is
      → 1 ≤ length is
  unfolding parse_intervals
  some_interval label nil is h e = absurd cc
  some_interval label (item v rest) is h e =
      let (i, _, h1) = bind-done (parse_interval py label v) _ is e in
      let (others, _, h2) = bind-done (parse_intervals py label rest) _ is h1 in
      subst (λ w. 1 ≤ length w) (done-injective (i ∷ others) is h2) (omega arith)

  pub filled_texts-filled : (vs : Items F) → All (λ t. is_filled py t ≡ true) (filled_texts py vs)
  filled_texts-filled nil = tt
  filled_texts-filled (item v rest) = elim (Bool-cases (is_filled py (py.str_of v))) [
    | inl e ↦ rw e (e, filled_texts-filled rest)
    | inr e ↦ rw e (filled_texts-filled rest)
  ]

  pub stride_at-fits :
      (payload : Members F) (n : ℕ) → stride_at py payload ≡ done n → (1 ≤ n) × (n ≤ 8)
  unfolding stride_at
  stride_at-fits payload n h = ground arith
