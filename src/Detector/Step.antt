-- ===== src/Detector/Step.antt =====
-- One reading: what the buffer and the run stand for.
use aiot_powerguard.Prelude.{
  ℕ, suc, ◌+◌, ◌-◌, ◌≤◌, ◌<◌, ◌≡◌, refl, sym, ap, ◌∙◌, Bool, true, false, not, Option, none, some,
  List, [], ◌∷◌, ◌++◌, list_eq, nat_eq, arith, if◌then◌else◌, ltb, leb, last?, last_n, length, map,
  length-drop, last_n-append, last?-last_n, append_nil, dec_lt, Option-cases, inl, inr,
}
use aiot_powerguard.Prelude.Dict.{
  lookup, insert, get_or, lookup-insert_self, get_or-none, get_or-some,
}
use aiot_powerguard.Text.{Text}
use aiot_powerguard.Measure.{Floats}
use aiot_powerguard.Entities.{Telemetry}
use aiot_powerguard.Features.{
  Numpy, Measures, TrainedModel, from_ends, window_vector, window_size, score, windows,
}
use aiot_powerguard.Features.Windows.{
  newest, newest-full, newest-short, windows-append, run_after, run_after-append,
}
use aiot_powerguard.Ingestion.{nothing}
use aiot_powerguard.Detector.{
  Engine, Buffers, measures_of, is_broken, buffer_for, judge, score_buffer, append_row, is_flag,
}

module _ {F : Type 0} (fl : Floats F) (np : Numpy F) where
  from_ends-some :
      (tail rows : List (Measures F))
      → 2 ≤ length rows
      → (v : List F) × (from_ends fl np tail rows ≡ some v)
  unfolding from_ends
  from_ends-some tail [] h = absurd (omega arith)
  from_ends-some tail (r ∷ []) h = absurd (omega arith)
  from_ends-some tail (p ∷ l ∷ []) h = (_, refl)
  from_ends-some tail (p ∷ r ∷ s ∷ rows) h = from_ends-some tail (r ∷ s ∷ rows) (omega arith)

  pub window_vector-some :
      (rows : List (Measures F))
      → window_size ≤ length rows
      → (v : List F) × (window_vector fl np window_size rows ≡ some v)
  unfolding window_vector
  window_vector-some rows h =
      let (v, e) =
        from_ends-some (last_n window_size rows) (last_n window_size rows)
          (omega (arith, length-drop (length rows - window_size) rows)) in
      (v, ground arith)

  -- The test of a window, as `flags` makes it for a row of the matrix.
  abbrev pub above_of : TrainedModel F → Option (List F) → Bool
  above_of model none = false
  above_of model (some v) = fl.le model.threshold (score fl np model v)

  abbrev pub above : TrainedModel F → List (Telemetry F) → Bool
  above model w = above_of model (window_vector fl np window_size (map measures_of w))

pub length-map : {A B : Type 0} (f : A → B) (xs : List A) → length (map f xs) ≡ length xs
length-map f [] = refl
length-map f (x ∷ xs) = ap suc (length-map f xs)

-- What the state holds of a device when the rows of its segment so far are `current`.
pub record Holds {F : Type 0} (fl : Floats F) (np : Numpy F) (model : TrainedModel F)
    (device_id : Text) (current : List (Telemetry F)) (b : Buffers F) : Type 0 where
  pub buffer : get_or device_id [] b.buffers ≡ last_n window_size current
  pub run :
      get_or device_id 0 b.runs
      ≡ run_after 0 (map (above fl np model) (windows window_size current))

pub map-append :
    {A B : Type 0} (f : A → B) (xs ys : List A) → map f (xs ++ ys) ≡ map f xs ++ map f ys
map-append f [] ys = refl
map-append f (x ∷ xs) ys = ap (λ w. f x ∷ w) (map-append f xs ys)

module _ {F : Type 0} (fl : Floats F) (np : Numpy F) (engine : Engine F) (model : TrainedModel F)
    (comparable : (v : List F)
      → fl.le model.threshold (score fl np model v)
        ≡ not (fl.lt (score fl np model v) model.threshold))
    (positive_run : 1 ≤ model.consecutive) where
  -- the flag of the newest row of a segment
  abbrev pub row_flag : List (Telemetry F) → Bool
  row_flag current =
      if leb window_size (length current)
      then leb model.consecutive
          (run_after 0 (map (above fl np model) (windows window_size current)))
      else false

  judge_lem :
      (k : Text) (v : List F) (b : Buffers F)
      → let (b', e) = judge fl np engine model k (score fl np model v) b in
        let next =
          if fl.le model.threshold (score fl np model v) then get_or k 0 b.runs + 1 else 0 in
        (b'.buffers ≡ b.buffers)
        × (get_or k 0 b'.runs ≡ next)
        × (is_flag e ≡ leb model.consecutive next)
  unfolding judge
  judge_lem k v b = ground (
    arith,
    comparable v,
    lookup-insert_self k 0 b.runs,
    lookup-insert_self k (get_or k 0 b.runs + 1) b.runs,
  )

  -- a buffer that is not full yet
  score_short :
      (k : Text) (buffer : List (Telemetry F)) (b : Buffers F)
      → length buffer < window_size
      → score_buffer fl np engine model k buffer b ≡ (b, nothing)
  unfolding score_buffer
  score_short k buffer b h = ground arith

  score_full :
      (k : Text) (buffer : List (Telemetry F)) (b : Buffers F)
      → window_size ≤ length buffer
      → let (b', e) = score_buffer fl np engine model k buffer b in
        let next = if above fl np model buffer then get_or k 0 b.runs + 1 else 0 in
        (b'.buffers ≡ b.buffers)
        × (get_or k 0 b'.runs ≡ next)
        × (is_flag e ≡ leb model.consecutive next)
  unfolding score_buffer
  score_full k buffer b h =
      let (v, e) =
        window_vector-some fl np (map measures_of buffer)
          (omega (arith, length-map measures_of buffer)) in
      let full : ltb (length buffer) window_size ≡ false = ground arith in
      rw (full, e, score_buffer) (judge_lem k v b)

  abbrev pub run_of : List (Telemetry F) → ℕ
  run_of current = run_after 0 (map (above fl np model) (windows window_size current))

  one_more :
      (current : List (Telemetry F)) (t : Telemetry F)
      → map (above fl np model) (windows window_size (current ++ t ∷ []))
        ≡ map (above fl np model) (windows window_size current)
          ++ map (above fl np model) (newest window_size (current ++ t ∷ []))
  one_more current t =
      ap (map (above fl np model)) (windows-append window_size current t (omega arith))
      ∙ map-append (above fl np model) (windows window_size current)
          (newest window_size (current ++ t ∷ []))

  run_of-short :
      (current : List (Telemetry F)) (t : Telemetry F)
      → length (current ++ t ∷ []) < window_size
      → run_of (current ++ t ∷ []) ≡ run_of current
  run_of-short current t h = ap (run_after 0) (
      one_more current t
      ∙ ap (λ w. map (above fl np model) (windows window_size current) ++ map (above fl np model) w)
          (newest-short window_size (current ++ t ∷ []) h)
      ∙ append_nil (map (above fl np model) (windows window_size current)))

  run_of-full :
      (current : List (Telemetry F)) (t : Telemetry F)
      → window_size ≤ length (current ++ t ∷ [])
      → run_of (current ++ t ∷ []) ≡ (
          if above fl np model (last_n window_size (current ++ t ∷ []))
          then run_of current + 1
          else 0)
  run_of-full current t h =
      ap (run_after 0) (
        one_more current t
        ∙ ap
            (λ w.
              map (above fl np model) (windows window_size current) ++ map (above fl np model) w)
            (newest-full window_size (current ++ t ∷ []) h))
      ∙ run_after-append 0 (map (above fl np model) (windows window_size current))
          (above fl np model (last_n window_size (current ++ t ∷ [])))

  pub append_row-Holds :
      (t : Telemetry F) (current buffer : List (Telemetry F)) (b : Buffers F)
      → buffer ≡ last_n window_size current
      → get_or t.device_id 0 b.runs
        ≡ run_after 0 (map (above fl np model) (windows window_size current))
      → let (b', e) = append_row fl np engine model t (b, buffer) in
        Holds fl np model t.device_id (current ++ t ∷ []) b'
        × (is_flag e ≡ row_flag (current ++ t ∷ []))
  unfolding append_row
  append_row-Holds t current buffer b same run =
      let whole = current ++ t ∷ [] in
      let new = last_n window_size (buffer ++ t ∷ []) in
      let c = record b { buffers = insert t.device_id new b.buffers } in
      let kept : new ≡ last_n window_size whole =
        ap (λ w. last_n window_size (w ++ t ∷ [])) same ∙ last_n-append window_size current t in
      let size : length new ≡ length whole - (length whole - window_size) =
        ap length kept ∙ length-drop (length whole - window_size) whole in
      let found : get_or t.device_id [] c.buffers ≡ last_n window_size whole =
        get_or-some t.device_id [] new c.buffers (lookup-insert_self t.device_id new b.buffers)
        ∙ kept in
      elim (dec_lt (length whole) window_size) [
        | yes short ↦ rw (score_short t.device_id new c (omega (arith, size))) (
          record { buffer = found; run = run ∙ sym (run_of-short current t short) },
          ground arith,
        )
        | no full ↦
            let big : window_size ≤ length whole = omega arith in
            let (bufs, runs, flag) = score_full t.device_id new c (omega (arith, size)) in
            let next =
              ap (λ w. if above fl np model w then get_or t.device_id 0 b.runs + 1 else 0) kept
              ∙ ap (λ r. if above fl np model (last_n window_size whole) then r + 1 else 0) run
              ∙ sym (run_of-full current t big) in
            let ripe : leb window_size (length whole) ≡ true = ground arith in
            (
              record { buffer = ap (get_or t.device_id []) bufs ∙ found; run = runs ∙ next },
              flag ∙ ap (leb model.consecutive) next ∙ rw ripe refl,
            )
      ]

  last_buffered :
      (k : Text) (current : List (Telemetry F)) (b : Buffers F)
      → Holds fl np model k current b
      → last? (get_or k [] b.buffers) ≡ last? current
  last_buffered k current b h = ap last? h.buffer ∙ last?-last_n window_size current (omega arith)

  pub buffer_for_linked :
      (t : Telemetry F) (current : List (Telemetry F)) (b : Buffers F)
      → Holds fl np model t.device_id current b
      → is_broken engine (last? current) t ≡ false
      → let (b', buffer) = buffer_for engine t b in
        (buffer ≡ last_n window_size current)
        × (get_or t.device_id 0 b'.runs ≡ get_or t.device_id 0 b.runs)
  unfolding buffer_for
  buffer_for_linked t current b h joined =
      let l = last_buffered t.device_id current b h in
      elim (Option-cases (lookup t.device_id b.buffers)) [
        | inl e ↦ rw (e, buffer_for) (sym (get_or-none t.device_id [] b.buffers e) ∙ h.buffer, refl)
        | inr (buffer, e) ↦
            let same : buffer ≡ last_n window_size current =
              sym (get_or-some t.device_id [] buffer b.buffers e) ∙ h.buffer in
            let whole : is_broken engine (last? buffer) t ≡ false =
              ap (λ w. is_broken engine (last? w) t) same
              ∙ ap (λ o. is_broken engine o t) (last?-last_n window_size current (omega arith))
              ∙ joined in
            rw (e, whole, buffer_for) (same, refl)
      ]

  pub buffer_for_broken :
      (t : Telemetry F) (current : List (Telemetry F)) (b : Buffers F)
      → Holds fl np model t.device_id current b
      → is_broken engine (last? current) t ≡ true
      → let (b', buffer) = buffer_for engine t b in
        (buffer ≡ []) × (get_or t.device_id 0 b'.runs ≡ 0)
  unfolding buffer_for
  buffer_for_broken t current b h broken =
      let l = last_buffered t.device_id current b h in
      elim (Option-cases (lookup t.device_id b.buffers)) [
        | inl e ↦
            let empty : last? current ≡ none =
              sym l ∙ ap last? (get_or-none t.device_id [] b.buffers e) in
            let bad : false ≡ true = ap (λ o. is_broken engine o t) (sym empty) ∙ broken in
            absurd cc
        | inr (buffer, e) ↦
            let same : buffer ≡ last_n window_size current =
              sym (get_or-some t.device_id [] buffer b.buffers e) ∙ h.buffer in
            let cut : is_broken engine (last? buffer) t ≡ true =
              ap (λ w. is_broken engine (last? w) t) same
              ∙ ap (λ o. is_broken engine o t) (last?-last_n window_size current (omega arith))
              ∙ broken in
            rw (e, cut, buffer_for)
              (
                refl,
                get_or-some t.device_id 0 0 (insert t.device_id 0 b.runs)
                    (lookup-insert_self t.device_id 0 b.runs),
              )
      ]
