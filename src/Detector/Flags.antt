-- ===== src/Detector/Flags.antt =====
-- The flags of a segment when one more row comes.
use aiot_powerguard.Prelude.{
  ℕ, zero, suc, ◌+◌, ◌-◌, ◌≤◌, min, ◌≡◌, refl, sym, ap, ◌∙◌, Bool, true, false, not, List, [], ◌∷◌,
  ◌++◌, list_eq, nat_eq, arith, leb, last_n, length, map, length-append, append_nil, append_assoc,
  dec_lt,
}
use aiot_powerguard.Text.{codes}
use aiot_powerguard.Measure.{Floats}
use aiot_powerguard.Entities.{Telemetry}
use aiot_powerguard.Features.{
  segment_matrix, Numpy, TrainedModel, window_size, score, windows, suppress, suppress_from,
}
use aiot_powerguard.Features.Windows.{
  windows-short, newest-full, windows-append, run_after, suppress_from-append,
}
use aiot_powerguard.Detector.{Engine, measures_of}
use aiot_powerguard.Detector.Matrix.{matrix_flags, flags-above}
use aiot_powerguard.Detector.Step.{above, map-append, row_flag}

-- A reading of the device the artifact is for, from a sensor that works.
abbrev pub IsUsable : {F : Type 0} → Engine F → Telemetry F → Type 0
IsUsable engine t = (t.device_id ≡ engine.artifact_device_id) × (t.sensor_status ≡ codes "ok")

abbrev pub replicate : {A : Type 0} → ℕ → A → List A
replicate zero x = []
replicate (suc n) x = x ∷ replicate n x

replicate_more : {A : Type 0} (n : ℕ) (x : A) → replicate n x ++ x ∷ [] ≡ replicate (suc n) x
replicate_more zero x = refl
replicate_more (suc n) x = ap (λ w. x ∷ w) (replicate_more n x)

module _ {F : Type 0} (fl : Floats F) (np : Numpy F) (model : TrainedModel F) where
  -- the flag of each row, by the tests of its windows
  abbrev pub segment_flags : List (Telemetry F) → List Bool
  segment_flags segment =
      replicate (min (length segment) (window_size - 1)) false
      ++ suppress (map (above fl np model) (windows window_size segment)) model.consecutive

  -- The flag of each row of a segment on the training side: none for the rows that complete no
  -- window, and then the flags of the matrix of the segment.
  abbrev pub train_flags : List (Telemetry F) → List Bool
  train_flags segment =
      replicate (min (length segment) (window_size - 1)) false
      ++ matrix_flags fl np model (segment_matrix fl np (map measures_of segment))

  pub train_flags_all :
      (segments : List (List (Telemetry F))) → map train_flags segments ≡ map segment_flags segments
  train_flags_all [] = refl
  train_flags_all (s ∷ ss) =
      ap (λ w. (replicate (min (length s) (window_size - 1)) false ++ w) ∷ map train_flags ss)
        (flags-above fl np model s)
      ∙ ap (λ w. segment_flags s ∷ w) (train_flags_all ss)

module _ {F : Type 0} (fl : Floats F) (np : Numpy F) (engine : Engine F) (model : TrainedModel F)
    (comparable : (v : List F)
      → fl.le model.threshold (score fl np model v)
        ≡ not (fl.lt (score fl np model v) model.threshold))
    (positive_run : 1 ≤ model.consecutive) where
  pub flag_more :
      (current : List (Telemetry F)) (t : Telemetry F)
      → segment_flags fl np model (current ++ t ∷ [])
        ≡ segment_flags fl np model current
          ++ row_flag fl np engine model comparable positive_run (current ++ t ∷ []) ∷ []
  unfolding suppress suppress_from
  flag_more current t =
      let whole = current ++ t ∷ [] in
      let n : length whole ≡ length current + 1 = length-append current (t ∷ []) in
      let f = above fl np model in
      let k = model.consecutive in
      elim (dec_lt (length whole) window_size) [
        | yes short ↦
            let counted : min (length whole) (window_size - 1)
                ≡ suc (min (length current) (window_size - 1)) =
              omega (arith, n) in
            let none_yet : leb window_size (length whole) ≡ false = ground arith in
            ap (λ w. replicate (min (length whole) (window_size - 1)) false ++ suppress (map f w) k)
              (windows-short window_size whole short)
            ∙ append_nil _
            ∙ ap (λ j. replicate j false) counted
            ∙ sym (replicate_more (min (length current) (window_size - 1)) false)
            ∙ ap (λ w. w ++ false ∷ [])
                (sym (append_nil (replicate (min (length current) (window_size - 1)) false))
                  ∙ ap
                      (λ w.
                        replicate (min (length current) (window_size - 1)) false
                        ++ suppress (map f w) k)
                      (sym (windows-short window_size current (omega (arith, n)))))
            ∙ rw none_yet refl
        | no full ↦
            let big : window_size ≤ length whole = omega arith in
            let counted : min (length whole) (window_size - 1)
                ≡ min (length current) (window_size - 1) =
              omega (arith, n) in
            let ripe : leb window_size (length whole) ≡ true = ground arith in
            let more =
              ap (map f) (
                windows-append window_size current t (omega arith)
                ∙ ap (λ w. windows window_size current ++ w) (newest-full window_size whole big))
              ∙ map-append f (windows window_size current) (last_n window_size whole ∷ []) in
            ap (λ j. replicate j false ++ suppress (map f (windows window_size whole)) k) counted
            ∙ ap (λ w. replicate (min (length current) (window_size - 1)) false ++ suppress w k)
                more
            ∙ ap (λ w. replicate (min (length current) (window_size - 1)) false ++ w)
                (suppress_from-append k 0 (map f (windows window_size current))
                    (f (last_n window_size whole))
                  ∙ ap
                      (λ w.
                        suppress (map f (windows window_size current)) k
                        ++ leb k (run_after 0 w) ∷ [])
                      (sym more))
            ∙ sym (
                append_assoc (replicate (min (length current) (window_size - 1)) false)
                  (suppress (map f (windows window_size current)) k) _)
            ∙ rw ripe refl
      ]
