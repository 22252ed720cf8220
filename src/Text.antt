-- ===== src/Text.antt =====
-- Text as the program's patterns read it: a list of code points, `str.split` on one character, and
-- the anchored patterns of `re`. A Python `$` matches at the end and before a final newline.
pub mod Regex
use Prim.Native.Char.{code}
use aiot_powerguard.Prelude.{
  ℕ, zero, suc, String, Bool, true, false, ◌&&◌, ◌||◌, List, [], ◌∷◌, ◌==◌, nat_eq, leb,
  if◌then◌else◌,
}

abbrev pub Text : Type 0
Text = List ℕ

abbrev pub codes : String → Text
codes String.[] = []
codes (String.◌∷◌ c s) = code c ∷ codes s

abbrev pub cons_head : ℕ → List Text → List Text
cons_head c [] = (c ∷ []) ∷ []
cons_head c (s ∷ ss) = (c ∷ s) ∷ ss

-- `text.split(sep)`
unfoldable pub split : ℕ → Text → List Text
split sep [] = [] ∷ []
split sep (c ∷ s) = if c == sep then [] ∷ split sep s else cons_head c (split sep s)

-- `$`
abbrev pub at_end : Text → Bool
at_end [] = true
at_end (c ∷ []) = c == 10
at_end (_ ∷ _ ∷ _) = false

-- `[...]{0,n}$`
unfoldable pub match_up_to : (ℕ → Bool) → ℕ → Text → Bool
match_up_to p zero s = at_end s
match_up_to p (suc n) [] = true
match_up_to p (suc n) (c ∷ s) = at_end (c ∷ s) || (p c && match_up_to p n s)

-- `[...]{n}$`
unfoldable pub match_exactly : (ℕ → Bool) → ℕ → Text → Bool
match_exactly p zero s = at_end s
match_exactly p (suc n) [] = false
match_exactly p (suc n) (c ∷ s) = p c && match_exactly p n s

abbrev pub is_lower : ℕ → Bool
is_lower c = leb b'a' c && leb c b'z'

abbrev pub is_digit : ℕ → Bool
is_digit c = leb b'0' c && leb c b'9'
