-- ===== src/Segments/Cut.antt =====
-- The segments keep every row in order, and hold no gap.
use aiot_powerguard.Prelude.{
  ℕ, ◌≡◌, refl, sym, ap, ◌∙◌, true, Option, none, some, List, [], ◌∷◌, ◌++◌, arith, subst,
  append_assoc, append_nil, no_last, leb, last?, length, All, All-append, All-keep, Bool-cases, inl,
  inr,
}
use aiot_powerguard.Segments.{Ordered, linked, place, cut_from, cut, long_enough}

abbrev pub concat : {A : Type 0} → List (List A) → List A
concat [] = []
concat (s ∷ ss) = s ++ concat ss

pub concat-append :
    {A : Type 0} (ss : List (List A)) (s : List A) → concat (ss ++ s ∷ []) ≡ concat ss ++ s
concat-append [] s = append_nil s
concat-append (t ∷ ss) s =
    ap (λ w. t ++ w) (concat-append ss s) ∙ sym (append_assoc t (concat ss) s)

module _ {A : Type 0} (view : A → Ordered) (stride gap : ℕ) where
  -- each row may extend a window that ends at the row before it
  abbrev pub IsChain : List A → Type 0
  IsChain [] = Unit
  IsChain (x ∷ []) = Unit
  IsChain (x ∷ y ∷ ys) = (linked view stride gap x y ≡ true) × IsChain (y ∷ ys)

  append-IsChain :
      (s : List A) (p r : A)
      → last? s ≡ some p
      → linked view stride gap p r ≡ true
      → IsChain s
      → IsChain (s ++ r ∷ [])
  append-IsChain [] p r e k h = cc
  append-IsChain (x ∷ []) p r e k h =
      (subst (λ q. linked view stride gap q r ≡ true) (sym (ground arith)) k, tt)
  append-IsChain (x ∷ y ∷ ys) p r e k h = (h.0, append-IsChain (y ∷ ys) p r e k h.1)

  place-concat :
      (o : Option A) (row : A) (segments : List (List A)) (current : List A)
      → let (s, c) = place view stride gap o row segments current in
        concat s ++ c ≡ (concat segments ++ current) ++ row ∷ []
  place-concat none row segments current = sym (append_assoc (concat segments) current (row ∷ []))
  place-concat (some p) row segments current = elim (Bool-cases (linked view stride gap p row)) [
    | inl e ↦ rw e (sym (append_assoc (concat segments) current (row ∷ [])))
    | inr e ↦ rw e (ap (λ w. w ++ row ∷ []) (concat-append segments current))
  ]

  close-concat :
      (segments : List (List A)) (current : List A)
      → concat (cut_from view stride gap [] (segments, current)) ≡ concat segments ++ current
  unfolding cut_from
  close-concat segments [] = sym (append_nil (concat segments))
  close-concat segments (row ∷ rows) = concat-append segments (row ∷ rows)

  cut_from-concat :
      (rows : List A) (segments : List (List A)) (current : List A)
      → concat (cut_from view stride gap rows (segments, current))
        ≡ (concat segments ++ current) ++ rows
  unfolding cut_from
  cut_from-concat [] segments current =
      close-concat segments current ∙ sym (append_nil (concat segments ++ current))
  cut_from-concat (row ∷ rows) segments current =
      let p = place view stride gap (last? current) row segments current in
      cut_from-concat rows p.0 p.1
      ∙ ap (λ w. w ++ rows) (place-concat (last? current) row segments current)
      ∙ append_assoc (concat segments ++ current) (row ∷ []) rows

  place-IsChain :
      (o : Option A) (row : A) (segments : List (List A)) (current : List A)
      → last? current ≡ o
      → All IsChain segments
      → IsChain current
      → let (s, c) = place view stride gap o row segments current in All IsChain s × IsChain c
  place-IsChain none row segments [] e a h = (a, tt)
  place-IsChain none row segments (x ∷ xs) e a h = absurd (no_last x xs e)
  place-IsChain (some p) row segments current e a h =
      elim (Bool-cases (linked view stride gap p row)) [
        | inl k ↦ rw k (a, append-IsChain current p row e k h)
        | inr k ↦ rw k (All-append IsChain segments (current ∷ []) a (h, tt), tt)
      ]

  cut_from-IsChain :
      (rows : List A) (segments : List (List A)) (current : List A)
      → All IsChain segments
      → IsChain current
      → All IsChain (cut_from view stride gap rows (segments, current))
  unfolding cut_from
  cut_from-IsChain [] segments [] a h = a
  cut_from-IsChain [] segments (row ∷ rows) a h =
      All-append IsChain segments ((row ∷ rows) ∷ []) a (h, tt)
  cut_from-IsChain (row ∷ rows) segments current a h =
      let p = place view stride gap (last? current) row segments current in
      let kept = place-IsChain (last? current) row segments current refl a h in
      cut_from-IsChain rows p.0 p.1 kept.0 kept.1

  -- The cut keeps every row, in order, and in each segment every row may extend a window that ends
  -- at the row before it; so may the rows of the segments that are long enough.
  pub cut-IsChain :
      (window : ℕ) (rows : List A)
      → (concat (cut view stride gap rows) ≡ rows)
        × All IsChain (cut view stride gap rows)
        × All IsChain (long_enough view stride gap window rows)
  unfolding cut long_enough
  cut-IsChain window rows =
      let chains = cut_from-IsChain rows [] [] tt tt in
      (
        cut_from-concat rows [] [],
        chains,
        All-keep IsChain (λ s. leb window (length s)) (cut view stride gap rows) chains,
      )
