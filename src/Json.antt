-- ===== src/Json.antt =====
-- What `json.loads` returns, and what Python's builtins make of it. An object has each key once.
use aiot_powerguard.Prelude.{
  ℕ, Bool, not, Option, none, some, [], ◌∷◌, ◌++◌, ◌==◌, nat_eq, list_eq, if◌then◌else◌, any_of,
}
use aiot_powerguard.Prelude.Int.{ℤ}
use aiot_powerguard.Text.{Text, codes}

mutual
  pub data Json (F : Type 0) : Type 0 where
    null : Json F
    bool : Bool → Json F
    int : ℤ → Json F
    float : F → Json F
    str : Text → Json F
    array : Items F → Json F
    object : Members F → Json F

  pub data Items (F : Type 0) : Type 0 where
    nil : Items F
    item : Json F → Items F → Items F

  pub data Members (F : Type 0) : Type 0 where
    empty : Members F
    member : Text → Json F → Members F → Members F

-- what a conversion gives; otherwise it raises a `TypeError` or `ValueError`, or an `OverflowError`
pub data Conversion (A : Type 0) : Type 0 where
  value : A → Conversion A
  not_a_number too_large : Conversion A

-- `str`, `float`, `int`, `str.isspace` of one character, the comparison of a float with a whole
-- number, and `datetime.fromisoformat`: nothing when it raises, no moment when the text has no
-- offset, and the moment in UTC.
pub record Builtins (F : Type 0) : Type 0 where
  pub str_of : Json F → Text
  pub float_of : Json F → Conversion F
  pub int_of : Json F → Conversion ℤ
  pub is_space : ℕ → Bool
  pub equals : F → ℕ → Bool
  pub fromisoformat : Text → Option (Option ℕ)

-- `payload.get(key)`
abbrev pub get : {F : Type 0} → Text → Members F → Option (Json F)
get key empty = none
get key (member k v rest) = if key == k then some v else get key rest

-- `str(payload.get(key, ""))`
abbrev pub text_at : {F : Type 0} → Builtins F → Text → Members F → Text
text_at py key payload = elim (get key payload) [ none ↦ [] | some v ↦ py.str_of v ]

-- whether something is left after `strip()`
abbrev pub is_filled : {F : Type 0} → Builtins F → Text → Bool
is_filled py text = any_of (λ c. not (py.is_space c)) text

-- `text.replace("Z", "+00:00")`
unfoldable pub replace_z : Text → Text
replace_z [] = []
replace_z (c ∷ s) = if c == b'Z' then codes "+00:00" ++ replace_z s else c ∷ replace_z s
