-- ===== src/Text/Regex.antt =====
-- Regular expressions as the patterns of the sources write them, matched by derivatives.
use aiot_powerguard.Prelude.{
  ℕ, Bool, true, false, ◌&&◌, ◌||◌, List, [], ◌∷◌, ◌==◌, nat_eq, if◌then◌else◌,
}

pub data Regex : Type 0 where
  never empty : Regex
  chars : (ℕ → Bool) → Regex
  followed_by : Regex → Regex → Regex
  or_else : Regex → Regex → Regex
  star : Regex → Regex

unfoldable pub nullable : Regex → Bool
nullable never = false
nullable empty = true
nullable (chars p) = false
nullable (followed_by r s) = nullable r && nullable s
nullable (or_else r s) = nullable r || nullable s
nullable (star r) = true

unfoldable pub derivative : ℕ → Regex → Regex
unfolding nullable
derivative c never = never
derivative c empty = never
derivative c (chars p) = if p c then empty else never
derivative c (followed_by r s) =
    if nullable r
    then or_else (followed_by (derivative c r) s) (derivative c s)
    else followed_by (derivative c r) s
derivative c (or_else r s) = or_else (derivative c r) (derivative c s)
derivative c (star r) = followed_by (derivative c r) (star r)

unfoldable pub full_match : Regex → List ℕ → Bool
unfolding nullable derivative
full_match r [] = nullable r
full_match r (c ∷ s) = full_match (derivative c r) s

abbrev pub char : ℕ → Regex
char k = chars (λ c. c == k)

abbrev pub optional : Regex → Regex
optional r = or_else r empty

abbrev pub plus : Regex → Regex
plus r = followed_by r (star r)

-- `$` at the end of a pattern: the end, or a final newline
abbrev pub dollar : Regex
dollar = optional (char 10)
