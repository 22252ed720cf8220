-- ===== src/Segments.antt =====
-- ml/src/powerguard_ml/preprocess.py: cutting the ordered readings of a device into segments that a
-- window may span. `gap` is the product of the cadence and the tolerance, in microseconds.
pub mod Cut
mod Tests
use aiot_powerguard.Prelude.{
  ℕ, ◌+◌, Bool, true, false, ◌&&◌, Option, none, some, List, [], ◌∷◌, ◌++◌, ◌==◌, list_eq, nat_eq,
  if◌then◌else◌, leb, ltb, last?, keep, length,
}
use aiot_powerguard.Text.{Text}

-- what contiguity reads of a row
pub record Ordered : Type 0 where
  pub boot_id : Text
  pub seq : ℕ
  pub received_at : ℕ

unfoldable pub is_contiguous : ℕ → ℕ → Ordered → Ordered → Bool
is_contiguous stride gap previous current =
    current.boot_id == previous.boot_id
    && (leb (previous.seq + 1) current.seq
        && (leb current.seq (previous.seq + stride)
            && (ltb previous.received_at current.received_at
                && leb current.received_at (previous.received_at + gap))))

-- The rows are of any type that shows what contiguity reads.
module _ {A : Type 0} (view : A → Ordered) (stride gap : ℕ) where
  abbrev pub linked : A → A → Bool
  linked previous current = is_contiguous stride gap (view previous) (view current)

  -- `segments` and `current` after one row
  abbrev pub place : Option A → A → List (List A) → List A → List (List A) × List A
  place none row segments current = (segments, current ++ row ∷ [])
  place (some previous) row segments current =
      if linked previous row
      then (segments, current ++ row ∷ [])
      else (segments ++ current ∷ [], row ∷ [])

  abbrev pub close_segment : List (List A) → List A → List (List A)
  close_segment segments [] = segments
  close_segment segments (row ∷ rows) = segments ++ (row ∷ rows) ∷ []

  -- the loop of `prepare` over the rows
  unfoldable pub cut_from : List A → List (List A) × List A → List (List A)
  cut_from [] (segments, current) = close_segment segments current
  cut_from (row ∷ rows) (segments, current) =
      cut_from rows (place (last? current) row segments current)

  unfoldable pub cut : List A → List (List A)
  cut rows = cut_from rows ([], [])

  -- the segments of at least one window
  unfoldable pub long_enough : ℕ → List A → List (List A)
  long_enough window rows = keep (λ s. leb window (length s)) (cut rows)
