-- ===== src/Measure.antt =====
-- Python's floats as far as the program uses them: the type is a parameter, and so are its
-- operations. Nothing is assumed of them but what a theorem names.
use aiot_powerguard.Prelude.{Bool}
use aiot_powerguard.Prelude.Int.{ℤ}

pub record Floats (F : Type 0) : Type 0 where
  pub le : F → F → Bool
  pub lt : F → F → Bool
  pub mul : F → F → F
  pub sub : F → F → F
  pub abs : F → F
  pub is_finite : F → Bool
  pub of_int : ℤ → F
  pub zero_f : F
  -- the literal `0.05`
  pub power_floor : F
