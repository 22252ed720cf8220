-- ===== src/Ingestion/Sequence.antt =====
-- The sequence diagnostics over a run of readings.
use aiot_powerguard.Prelude.{
  ℕ, ◌≡◌, refl, Option, none, some, List, [], ◌∷◌, arith, ◌==◌, list_eq, nat_eq, pair_eq,
  if◌then◌else◌, ltb, ◌∙◌, ap,
}
use aiot_powerguard.Prelude.Dict.{lookup, lookup-insert}
use aiot_powerguard.Text.{Text}
use aiot_powerguard.Ingestion.{Service, note_sequence}

-- the greater of a number and a number that may be missing
abbrev pub highest : Option ℕ → ℕ → ℕ
highest none n = n
highest (some m) n = if ltb m n then n else m

unfoldable pub highest_of : Text × Text → List ((Text × Text) × ℕ) → Option ℕ → Option ℕ
highest_of key [] before = before
highest_of key ((k, seq) ∷ rest) before =
    highest_of key rest (if key == k then some (highest before seq) else before)

module _ {S P : Type 0} where
  unfoldable pub note_all : List ((Text × Text) × ℕ) → Service S P → Service S P
  note_all [] v = v
  note_all ((key, seq) ∷ rest) v = note_all rest (note_sequence key seq v)

  note_sequence-lookup :
      (key k : Text × Text) (seq : ℕ) (v : Service S P)
      → lookup key (note_sequence k seq v).last_seq
        ≡ (if key == k then some (highest (lookup key v.last_seq) seq) else lookup key v.last_seq)
  unfolding note_sequence
  note_sequence-lookup key k seq v = ground (arith, lookup-insert key k seq v.last_seq)

  -- After any readings, the number remembered for a device and boot is the highest of its
  -- sequence numbers and the number remembered before, in whatever order they came.
  pub note_all-highest :
      (key : Text × Text) (readings : List ((Text × Text) × ℕ)) (v : Service S P)
      → lookup key (note_all readings v).last_seq ≡ highest_of key readings (lookup key v.last_seq)
  unfolding note_all highest_of
  note_all-highest key [] v = refl
  note_all-highest key ((k, seq) ∷ rest) v =
      note_all-highest key rest (note_sequence k seq v)
      ∙ ap (highest_of key rest) (note_sequence-lookup key k seq v)
