-- ===== src/Features/Windows.antt =====
-- The windows and the suppression when one more row comes.
use aiot_powerguard.Prelude.{
  ℕ, suc, ◌+◌, ◌-◌, ◌≤◌, ◌<◌, ◌≡◌, refl, sym, ap, ◌∙◌, Bool, List, [], ◌∷◌, ◌++◌, arith,
  if◌then◌else◌, leb, length, take, drop, last_n, length-append, take-append, take_all, dec_lt,
}
use aiot_powerguard.Features.{windows, suppress_from}

module _ {A : Type 0} where
  pub windows-short : (size : ℕ) (rows : List A) → length rows < size → windows size rows ≡ []
  unfolding windows
  windows-short size [] h = refl
  windows-short size (r ∷ rows) h = ground arith

  -- the window that one more row completes
  abbrev pub newest : ℕ → List A → List (List A)
  newest size rows = if leb size (length rows) then last_n size rows ∷ [] else []

  last_n-cons :
      (size : ℕ) (x : A) (ys : List A) → size ≤ length ys → last_n size (x ∷ ys) ≡ last_n size ys
  last_n-cons size x ys h =
      let e : suc (length ys) - size ≡ suc (length ys - size) = omega arith in
      ap (λ k. drop k (x ∷ ys)) e

  last_n-whole : (size : ℕ) (ys : List A) → length ys ≤ size → last_n size ys ≡ ys
  last_n-whole size ys h = let e : length ys - size ≡ 0 = omega arith in ap (λ k. drop k ys) e

  pub newest-full :
      (size : ℕ) (ys : List A) → size ≤ length ys → newest size ys ≡ last_n size ys ∷ []
  newest-full size ys h = ground arith

  pub newest-short : (size : ℕ) (ys : List A) → length ys < size → newest size ys ≡ []
  newest-short size ys h = ground arith

  pub windows-full :
      (size : ℕ) (x : A) (ys : List A)
      → size ≤ length ys + 1
      → windows size (x ∷ ys) ≡ take size (x ∷ ys) ∷ windows size ys
  unfolding windows
  windows-full size x ys h = ground arith

  pub windows-append :
      (size : ℕ) (rows : List A) (r : A)
      → 1 ≤ size
      → windows size (rows ++ r ∷ []) ≡ windows size rows ++ newest size (rows ++ r ∷ [])
  unfolding windows
  windows-append size [] r h = elim (dec_lt 1 size) [
    | yes k ↦ windows-short size (r ∷ []) k ∙ sym (newest-short size (r ∷ []) k)
    | no k ↦
        windows-full size r [] (omega arith)
        ∙ ap (λ w. w ∷ [])
            (take_all size (r ∷ []) (omega arith) ∙ sym (last_n-whole size (r ∷ []) (omega arith)))
        ∙ sym (newest-full size (r ∷ []) (omega arith))
  ]
  windows-append size (x ∷ xs) r h =
      let ys = xs ++ r ∷ [] in
      let n : length ys ≡ length xs + 1 = length-append xs (r ∷ []) in
      elim (dec_lt (length xs + 1) size) [
        | no k ↦
            windows-full size x ys (omega (arith, n))
            ∙ ap (λ w. w ∷ windows size ys) (take-append size (x ∷ xs) (r ∷ []) (omega arith))
            ∙ ap (λ w. take size (x ∷ xs) ∷ w) (windows-append size xs r h)
            ∙ ap (λ w. take size (x ∷ xs) ∷ (windows size xs ++ w))
                (newest-full size ys (omega (arith, n))
                  ∙ ap (λ w. w ∷ []) (sym (last_n-cons size x ys (omega (arith, n))))
                  ∙ sym (newest-full size (x ∷ ys) (omega (arith, n))))
            ∙ ap (λ w. w ++ newest size (x ∷ ys)) (sym (windows-full size x xs (omega arith)))
        | yes k ↦ elim (dec_lt (length xs + 2) size) [
          | yes l ↦
              windows-short size (x ∷ ys) (omega (arith, n))
              ∙ sym (newest-short size (x ∷ ys) (omega (arith, n)))
              ∙ ap (λ w. w ++ newest size (x ∷ ys))
                  (sym (windows-short size (x ∷ xs) (omega arith)))
          | no l ↦
              windows-full size x ys (omega (arith, n))
              ∙ ap (λ w. take size (x ∷ ys) ∷ w) (windows-short size ys (omega (arith, n)))
              ∙ ap (λ w. w ∷ [])
                  (take_all size (x ∷ ys) (omega (arith, n))
                    ∙ sym (last_n-whole size (x ∷ ys) (omega (arith, n))))
              ∙ sym (newest-full size (x ∷ ys) (omega (arith, n)))
              ∙ ap (λ w. w ++ newest size (x ∷ ys))
                  (sym (windows-short size (x ∷ xs) (omega arith)))
        ]
      ]

-- the run at the end of `suppress`
abbrev pub run_after : ℕ → List Bool → ℕ
run_after run [] = run
run_after run (above ∷ rest) = run_after (if above then run + 1 else 0) rest

pub run_after-append :
    (run : ℕ) (bs : List Bool) (b : Bool)
    → run_after run (bs ++ b ∷ []) ≡ (if b then run_after run bs + 1 else 0)
run_after-append run [] b = refl
run_after-append run (c ∷ bs) b = run_after-append (if c then run + 1 else 0) bs b

pub suppress_from-append :
    (k run : ℕ) (bs : List Bool) (b : Bool)
    → suppress_from k run (bs ++ b ∷ [])
      ≡ suppress_from k run bs ++ leb k (run_after run (bs ++ b ∷ [])) ∷ []
unfolding suppress_from
suppress_from-append k run [] b = refl
suppress_from-append k run (c ∷ bs) b =
    ap (λ w. leb k (if c then run + 1 else 0) ∷ w)
      (suppress_from-append k (if c then run + 1 else 0) bs b)
