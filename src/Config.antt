-- ===== src/Config.antt =====
-- backend/src/powerguard/config.py: the database URL and the rules across settings.
pub mod SqliteUrl
mod Tests
use aiot_powerguard.Prelude.{
  ℕ, Bool, true, false, not, ◌&&◌, ◌||◌, Option, none, some, List, [], ◌∷◌, ◌==◌, nat_eq, list_eq,
  option_eq, if◌then◌else◌, contains, last?, is_some,
}
use aiot_powerguard.Text.{Text, codes, is_lower, is_digit}

-- what the URL names: a database in memory, a file, or nothing (`DatabaseUrlError`)
pub data SqliteTarget : Type 0 where
  memory : SqliteTarget
  file : Text → SqliteTarget
  refused : SqliteTarget

-- the rest of the text behind a prefix
unfoldable pub strip_prefix : Text → Text → Option Text
strip_prefix [] t = some t
strip_prefix (c ∷ s) [] = none
strip_prefix (c ∷ s) (d ∷ t) = if c == d then strip_prefix s t else none

abbrev pub after_newline : Text → Option Text
after_newline [] = some []
after_newline (_ ∷ _) = none

abbrev pub cons_some : ℕ → Option Text → Option Text
cons_some c none = none
cons_some c (some s) = some (c ∷ s)

-- `.*$`: everything up to the end, or up to a final newline
unfoldable pub rest_of_line : Text → Option Text
rest_of_line [] = some []
rest_of_line (c ∷ s) =
    let rest = rest_of_line s in if c == 10 then after_newline s else cons_some c rest

abbrev pub ends_in_separator : Text → Bool
ends_in_separator t = last? t == some b'/' || last? t == some b'\\'

abbrev driver_char : ℕ → Bool
driver_char c = is_lower c || (is_digit c || c == b'_')

-- `[a-z0-9_]*`, and what follows it
unfoldable pub span_driver : Text → Text × Text
span_driver [] = ([], [])
span_driver (c ∷ s) =
    let (run, rest) = span_driver s in if driver_char c then (c ∷ run, rest) else ([], c ∷ s)

abbrev pub with_rest : Option Text → Option Text → Option (Option Text × Text)
with_rest driver none = none
with_rest driver (some t) = elim (rest_of_line t) [ none ↦ none | some r ↦ some (driver, r) ]

abbrev pub with_driver : Text × Text → Option (Option Text × Text)
with_driver ([], behind) = none
with_driver (c ∷ s, behind) = with_rest (some (c ∷ s)) (strip_prefix (codes "://") behind)

-- the URL behind `sqlite`: the driver, if there is one, and the rest
unfoldable pub url_parts : Text → Option (Option Text × Text)
url_parts [] = none
url_parts (c ∷ s) =
    if c == b'+'
    then with_driver (span_driver s)
    else with_rest none (strip_prefix (codes "://") (c ∷ s))

module _ (is_dir : Text → Bool) where
  unfoldable pub check_tail : Text → SqliteTarget
  check_tail tail =
      if tail == []
      then refused
      else if tail == codes ":memory:"
      then memory
      else if is_some (strip_prefix (codes "file:") tail)
      then refused
      else if contains tail 0
      then refused
      else if contains tail b'?'
      then refused
      else if ends_in_separator tail
      then refused
      else if is_dir tail
      then refused
      else file tail

  unfoldable pub check_rest : Text → SqliteTarget
  unfolding check_tail
  check_rest [] = memory
  check_rest (c ∷ tail) = if c == b'/' then check_tail tail else refused

  unfoldable pub check_parts : Option (Option Text × Text) → SqliteTarget
  unfolding check_rest
  check_parts none = refused
  check_parts (some (none, rest)) = check_rest rest
  check_parts (some (some driver, rest)) =
      if driver == codes "pysqlite" then check_rest rest else refused

  -- `parse_sqlite_url`; the file is the text that `Path` is given
  unfoldable pub parse_sqlite_url : Text → SqliteTarget
  unfolding check_parts
  parse_sqlite_url value = elim (strip_prefix (codes "sqlite") value) [
    | none ↦ refused
    | some t ↦ check_parts (url_parts t)
  ]
