-- ===== src/Topics/DeviceId.antt =====
-- What the device id pattern accepts. `$` also matches before a final newline, so the pattern
-- accepts one more character than the 32 that it names.
use aiot_powerguard.Prelude.{
  ℕ, zero, suc, ◌≤◌, ◌≡◌, refl, true, Bool, [], ◌∷◌, ◌++◌, ◌⊎◌, inl, inr, arith, nat_eq, all_of,
  length, Bool-cases,
}
use aiot_powerguard.Text.{Text, match_up_to, at_end}

-- `s` is at most `n` characters of the class `p`, and perhaps a newline behind them.
abbrev pub IsRun : (ℕ → Bool) → ℕ → Text → Type 0
IsRun p n s = (u : Text) × (all_of p u ≡ true) × (length u ≤ n) × ((s ≡ u) ⊎ (s ≡ u ++ 10 ∷ []))

at_end-IsRun : (p : ℕ → Bool) (n : ℕ) (s : Text) → at_end s ≡ true → IsRun p n s
at_end-IsRun p n [] h = ([], refl, omega arith, inl refl)
at_end-IsRun p n (c ∷ []) h = ([], refl, omega arith, inr (ground arith))
at_end-IsRun p n (c ∷ d ∷ s) h = cc

IsRun-cons :
    (p : ℕ → Bool) (n : ℕ) (c : ℕ) (s : Text) → p c ≡ true → IsRun p n s → IsRun p (suc n) (c ∷ s)
IsRun-cons p n c s h (u, a, l, inl e) = (c ∷ u, ground arith, omega arith, inl (cc))
IsRun-cons p n c s h (u, a, l, inr e) = (c ∷ u, ground arith, omega arith, inr (cc))

pub match_up_to-IsRun : (p : ℕ → Bool) (n : ℕ) (s : Text) → match_up_to p n s ≡ true → IsRun p n s
unfolding match_up_to
match_up_to-IsRun p zero s h = at_end-IsRun p zero s h
match_up_to-IsRun p (suc n) [] h = ([], refl, omega arith, inl refl)
match_up_to-IsRun p (suc n) (c ∷ s) h = elim (Bool-cases (at_end (c ∷ s))) [
  | inl end ↦ at_end-IsRun p (suc n) (c ∷ s) end
  | inr more ↦ IsRun-cons p n c s (ground arith) (match_up_to-IsRun p n s (ground arith))
]
