-- ===== src/Detector/Matrix.antt =====
-- The matrix of a segment against the test of each of its windows.
use aiot_powerguard.Prelude.{
  ℕ, zero, suc, ◌+◌, ◌≤◌, ◌≡◌, refl, sym, ap, ◌∙◌, Bool, Option, none, some, List, [], ◌∷◌, arith,
  length, map, take, length-take, All, dec_lt,
}
use aiot_powerguard.Measure.{Floats}
use aiot_powerguard.Entities.{Telemetry}
use aiot_powerguard.Features.{
  Numpy, TrainedModel, window_size, score, windows, vectors, segment_matrix, suppress, flags,
}
use aiot_powerguard.Features.Windows.{windows-short, windows-full}
use aiot_powerguard.Detector.{measures_of}
use aiot_powerguard.Detector.Step.{above, length-map, window_vector-some}

take-map : {A B : Type 0} (f : A → B) (n : ℕ) (xs : List A) → take n (map f xs) ≡ map f (take n xs)
take-map f zero xs = refl
take-map f (suc n) [] = refl
take-map f (suc n) (x ∷ xs) = ap (λ w. f x ∷ w) (take-map f n xs)

windows-map :
    {A B : Type 0} (f : A → B) (size : ℕ) (xs : List A)
    → windows size (map f xs) ≡ map (map f) (windows size xs)
unfolding windows
windows-map f size [] = refl
windows-map f size (x ∷ xs) = elim (dec_lt (length xs + 1) size) [
  | yes short ↦
      windows-short size (f x ∷ map f xs) (omega (arith, length-map f xs))
      ∙ ap (map (map f)) (sym (windows-short size (x ∷ xs) (omega arith)))
  | no full ↦
      windows-full size (f x) (map f xs) (omega (arith, length-map f xs))
      ∙ ap (λ w. w ∷ windows size (map f xs)) (take-map f size (x ∷ xs))
      ∙ ap (λ w. map f (take size (x ∷ xs)) ∷ w) (windows-map f size xs)
      ∙ ap (map (map f)) (sym (windows-full size x xs (omega arith)))
]

length-windows :
    {A : Type 0} (size : ℕ) (xs : List A) → All (λ w. size ≤ length w) (windows size xs)
unfolding windows
length-windows size [] = tt
length-windows size (x ∷ xs) = elim (dec_lt (length xs + 1) size) [
  | yes short ↦ rw (windows-short size (x ∷ xs) (omega arith)) tt
  | no full ↦
      rw (windows-full size x xs (omega arith))
        (omega (arith, length-take size (x ∷ xs)), length-windows size xs)
]

module _ {F : Type 0} (fl : Floats F) (np : Numpy F) (model : TrainedModel F) where
  vectors-some :
      (ws : List (List (Telemetry F)))
      → All (λ w. window_size ≤ length w) ws
      → (m : List (List F)) × (vectors fl np (map (map measures_of) ws) ≡ some m)
        × (map (λ v. fl.le model.threshold (score fl np model v)) m ≡ map (above fl np model) ws)
  unfolding vectors
  vectors-some [] h = ([], refl, refl)
  vectors-some (w ∷ ws) h =
      let (v, e) =
        window_vector-some fl np (map measures_of w)
          (omega (arith, length-map measures_of w, h.0)) in
      let (m, found, tested) = vectors-some ws h.1 in
      let one : above fl np model w ≡ fl.le model.threshold (score fl np model v) = rw e refl in
      (
        v ∷ m,
        rw (e, found) refl,
        ap (λ b. b ∷ map (λ u. fl.le model.threshold (score fl np model u)) m) (sym one)
            ∙ ap (λ r. above fl np model w ∷ r) tested,
      )

  -- the flags of the windows of a segment
  abbrev pub matrix_flags : Option (List (List F)) → List Bool
  matrix_flags none = []
  matrix_flags (some matrix) = flags fl np model matrix

  pub flags-above :
      (segment : List (Telemetry F))
      → matrix_flags (segment_matrix fl np (map measures_of segment))
        ≡ suppress (map (above fl np model) (windows window_size segment)) model.consecutive
  unfolding segment_matrix flags
  flags-above segment =
      let (m, found, tested) =
        vectors-some (windows window_size segment) (length-windows window_size segment) in
      rw (windows-map measures_of window_size segment, found)
        (ap (λ b. suppress b model.consecutive) tested)
