-- ===== src/Detector/Parity.antt =====
-- The verdicts on a stream against the flags that the training side gives to its segments.
use aiot_powerguard.Prelude.{
  ◌≤◌, ◌≡◌, refl, sym, ap, ◌∙◌, subst, Bool, true, false, not, some, List, [], ◌∷◌, ◌++◌, ◌==◌,
  list_eq, nat_eq, last?, map, All, append_nil, append_assoc, Bool-cases, Option-cases, inl, inr,
  ==_self,
}
use aiot_powerguard.Prelude.Dict.{lookup}
use aiot_powerguard.Text.{codes}
use aiot_powerguard.Measure.{Floats}
use aiot_powerguard.Entities.{Telemetry}
use aiot_powerguard.Segments.{linked, place, cut_from, cut}
use aiot_powerguard.Segments.Cut.{concat, concat-append}
use aiot_powerguard.Features.{Numpy, TrainedModel, score, windows, suppress, suppress_from}
use aiot_powerguard.Detector.{
  Engine, Buffers, no_buffers, ordered_of, is_broken, buffer_for, append_row, evaluate,
  evaluate_all, is_flag,
}
use aiot_powerguard.Detector.Step.{
  Holds, map-append, row_flag, append_row-Holds, buffer_for_linked, buffer_for_broken,
}
use aiot_powerguard.Detector.Flags.{
  IsUsable, segment_flags, train_flags, train_flags_all, flag_more,
}

module _ {F : Type 0} (fl : Floats F) (np : Numpy F) (engine : Engine F) (model : TrainedModel F)
    (comparable : (v : List F)
      → fl.le model.threshold (score fl np model v)
        ≡ not (fl.lt (score fl np model v) model.threshold))
    (positive_run : 1 ≤ model.consecutive) where
  evaluate_usable :
      (t : Telemetry F) (b : Buffers F)
      → engine.model ≡ some model
      → IsUsable engine t
      → evaluate fl np engine t b ≡ append_row fl np engine model t (buffer_for engine t b)
  unfolding evaluate
  evaluate_usable t b loaded (owner, ok) =
      let same : (t.device_id == engine.artifact_device_id) ≡ true =
        subst (λ d. (t.device_id == d) ≡ true) owner (==_self t.device_id) in
      let good : (t.sensor_status == codes "ok") ≡ true =
        subst (λ d. (t.sensor_status == d) ≡ true) ok (==_self t.sensor_status) in
      rw (loaded, same, good, evaluate) refl

  abbrev Held : List (Telemetry F) → Buffers F → Type 0
  Held current b = Holds fl np model engine.artifact_device_id current b

  evaluate_linked :
      (t : Telemetry F) (current : List (Telemetry F)) (b : Buffers F)
      → engine.model ≡ some model
      → IsUsable engine t
      → Held current b
      → is_broken engine (last? current) t ≡ false
      → let (b', e) = evaluate fl np engine t b in
        Held (current ++ t ∷ []) b'
        × (is_flag e ≡ row_flag fl np engine model comparable positive_run (current ++ t ∷ []))
  evaluate_linked t current b loaded usable held joined =
      let h = subst (λ d. Holds fl np model d current b) (sym usable.0) held in
      let (same, runs) =
        buffer_for_linked fl np engine model comparable positive_run t current b h joined in
      let (kept, flag) =
        append_row-Holds fl np engine model comparable positive_run t current
          (buffer_for engine t b).1 (buffer_for engine t b).0 same (runs ∙ h.run) in
      rw (evaluate_usable t b loaded usable) (
        subst
            (λ d.
              Holds fl np model d (current ++ t ∷ [])
                (append_row fl np engine model t (buffer_for engine t b)).0)
            usable.0 kept,
        flag,
      )

  evaluate_broken :
      (t : Telemetry F) (current : List (Telemetry F)) (b : Buffers F)
      → engine.model ≡ some model
      → IsUsable engine t
      → Held current b
      → is_broken engine (last? current) t ≡ true
      → let (b', e) = evaluate fl np engine t b in
        Held (t ∷ []) b'
        × (is_flag e ≡ row_flag fl np engine model comparable positive_run (t ∷ []))
  unfolding windows
  evaluate_broken t current b loaded usable held broken =
      let h = subst (λ d. Holds fl np model d current b) (sym usable.0) held in
      let (same, runs) =
        buffer_for_broken fl np engine model comparable positive_run t current b h broken in
      let (kept, flag) =
        append_row-Holds fl np engine model comparable positive_run t [] (buffer_for engine t b).1
          (buffer_for engine t b).0 same runs in
      rw (evaluate_usable t b loaded usable) (
        subst
            (λ d.
              Holds fl np model d (t ∷ [])
                (append_row fl np engine model t (buffer_for engine t b)).0)
            usable.0 kept,
        flag,
      )

  abbrev all_flags : List (List (Telemetry F)) → List Bool
  all_flags segments = concat (map (segment_flags fl np model) segments)

  abbrev so_far : List (List (Telemetry F)) × List (Telemetry F) → List Bool
  so_far (segments, current) = all_flags segments ++ segment_flags fl np model current

  all_flags-append :
      (segments : List (List (Telemetry F))) (current : List (Telemetry F))
      → all_flags (segments ++ current ∷ []) ≡ so_far (segments, current)
  all_flags-append segments current =
      ap concat (map-append (segment_flags fl np model) segments (current ∷ []))
      ∙ concat-append (map (segment_flags fl np model) segments) (segment_flags fl np model current)

  close_flags :
      (segments : List (List (Telemetry F))) (current : List (Telemetry F))
      → all_flags (cut_from ordered_of engine.stride engine.gap [] (segments, current))
        ≡ so_far (segments, current)
  unfolding cut_from windows suppress suppress_from
  close_flags segments [] = sym (append_nil (all_flags segments))
  close_flags segments (t ∷ ts) = all_flags-append segments (t ∷ ts)

  extend :
      (t : Telemetry F) (segments : List (List (Telemetry F))) (current : List (Telemetry F))
      (flag : Bool)
      → flag ≡ row_flag fl np engine model comparable positive_run (current ++ t ∷ [])
      → so_far (segments, current ++ t ∷ []) ≡ so_far (segments, current) ++ flag ∷ []
  extend t segments current flag e =
      ap (λ w. all_flags segments ++ w)
        (flag_more fl np engine model comparable positive_run current t)
      ∙ sym (append_assoc (all_flags segments) (segment_flags fl np model current) _)
      ∙ ap (λ f. so_far (segments, current) ++ f ∷ []) (sym e)

  restart :
      (t : Telemetry F) (segments : List (List (Telemetry F))) (current : List (Telemetry F))
      (flag : Bool)
      → flag ≡ row_flag fl np engine model comparable positive_run (t ∷ [])
      → so_far (segments ++ current ∷ [], t ∷ []) ≡ so_far (segments, current) ++ flag ∷ []
  unfolding windows suppress suppress_from
  restart t segments current flag e =
      ap (λ w. w ++ segment_flags fl np model (t ∷ [])) (all_flags-append segments current)
      ∙ ap (λ w. so_far (segments, current) ++ w)
          (flag_more fl np engine model comparable positive_run [] t)
      ∙ ap (λ f. so_far (segments, current) ++ f ∷ []) (sym e)

  -- one reading, with the segment it is placed in
  place_flags :
      (t : Telemetry F) (segments : List (List (Telemetry F))) (current : List (Telemetry F))
      (b : Buffers F)
      → engine.model ≡ some model
      → IsUsable engine t
      → Held current b
      → let p = place ordered_of engine.stride engine.gap (last? current) t segments current in
        let (b', e) = evaluate fl np engine t b in
        Held p.1 b' × (so_far p ≡ so_far (segments, current) ++ is_flag e ∷ [])
  place_flags t segments current b loaded usable held = elim (Option-cases (last? current)) [
    | inl e ↦
        let joined : is_broken engine (last? current) t ≡ false = rw e refl in
        let (h, flag) = evaluate_linked t current b loaded usable held joined in
        rw e (h, extend t segments current _ flag)
    | inr (p, e) ↦ elim (Bool-cases (linked ordered_of engine.stride engine.gap p t)) [
      | inl k ↦
          let joined : is_broken engine (last? current) t ≡ false = rw (e, k) refl in
          let (h, flag) = evaluate_linked t current b loaded usable held joined in
          rw (e, k) (h, extend t segments current _ flag)
      | inr k ↦
          let broken : is_broken engine (last? current) t ≡ true = rw (e, k) refl in
          let (h, flag) = evaluate_broken t current b loaded usable held broken in
          rw (e, k) (h, restart t segments current _ flag)
    ]
  ]

  evaluate_from :
      (rows : List (Telemetry F)) (segments : List (List (Telemetry F)))
      (current : List (Telemetry F)) (b : Buffers F)
      → engine.model ≡ some model
      → All (IsUsable engine) rows
      → Held current b
      → all_flags (cut_from ordered_of engine.stride engine.gap rows (segments, current))
        ≡ so_far (segments, current) ++ map is_flag (evaluate_all fl np engine rows b)
  unfolding cut_from evaluate_all
  evaluate_from [] segments current b loaded usable held =
      close_flags segments current ∙ sym (append_nil (so_far (segments, current)))
  evaluate_from (t ∷ ts) segments current b loaded usable held =
      let p = place ordered_of engine.stride engine.gap (last? current) t segments current in
      let (h, flags) = place_flags t segments current b loaded usable.0 held in
      evaluate_from ts p.0 p.1 (evaluate fl np engine t b).0 loaded usable.1 h
      ∙ ap (λ w. w ++ map is_flag (evaluate_all fl np engine ts (evaluate fl np engine t b).0))
          flags
      ∙ append_assoc (so_far (segments, current)) (is_flag (evaluate fl np engine t b).1 ∷ []) _

-- Take an engine with a model, whose comparisons of a score with the threshold agree (`>=` is not
-- `<`) and whose run is at least one, and readings of the device of the artifact with a sensor that
-- works. Fed to the engine one by one from empty buffers, they are flagged as the training side
-- flags them: the rows are cut into segments, the first 29 rows of a segment are not flagged, and
-- the others are flagged as `flags` flags the matrix of that segment alone.
pub evaluate_all-segments :
    {F : Type 0} (fl : Floats F) (np : Numpy F) (engine : Engine F) (model : TrainedModel F)
    → ((v : List F)
        → fl.le model.threshold (score fl np model v)
          ≡ not (fl.lt (score fl np model v) model.threshold))
    → 1 ≤ model.consecutive
    → engine.model ≡ some model
    → (rows : List (Telemetry F)) → All (IsUsable engine) rows
    → map is_flag (evaluate_all fl np engine rows no_buffers)
      ≡ concat (map (train_flags fl np model) (cut ordered_of engine.stride engine.gap rows))
unfolding cut windows suppress suppress_from lookup
evaluate_all-segments fl np engine model comparable positive_run loaded rows usable =
    sym (
      evaluate_from fl np engine model comparable positive_run rows [] [] no_buffers loaded usable
        (record { buffer = refl; run = refl }))
    ∙ ap concat (sym (train_flags_all fl np model (cut ordered_of engine.stride engine.gap rows)))
