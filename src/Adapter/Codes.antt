-- ===== src/Adapter/Codes.antt =====
-- Reading Paho's reason codes, and the reconnect delay (backend/src/powerguard/mqtt/client.py).
use aiot_powerguard.Prelude.{
  ℕ, zero, suc, ◌+◌, ◌-◌, ◌*◌, ◌/◌, ◌%◌, ◌^◌, ◌&&◌, ◌||◌, min, Bool, true, false, not, Option, none,
  some, List, [], ◌∷◌, ◌==◌, nat_eq, if◌then◌else◌, leb, ltb,
}
use aiot_powerguard.Prelude.Int.{ℤ, pos, negsuc}
use aiot_powerguard.Adapter.State.{ReasonCode, absent, code}

abbrev nonzero : ℤ → Bool
nonzero (pos n) = not (n == 0)
nonzero (negsuc _) = true

unfoldable pub reason_is_failure : ReasonCode → Bool
reason_is_failure absent = true
reason_is_failure (code (some b) v) = b
reason_is_failure (code none none) = true
reason_is_failure (code none (some z)) = nonzero z

abbrev qos_of : ℤ → Option ℕ
qos_of (pos n) = if leb n 2 then some n else none
qos_of (negsuc _) = none

abbrev value_qos : Option ℤ → Option ℕ
value_qos none = none
value_qos (some z) = qos_of z

-- `granted_qos`: `none` where the filter was refused
unfoldable pub granted_qos : ReasonCode → Option ℕ
granted_qos absent = none
granted_qos (code (some true) v) = none
granted_qos (code (some false) v) = value_qos v
granted_qos (code none v) = value_qos v

abbrev pub minimum_granted_qos : ℕ
minimum_granted_qos = 1

abbrev pub too_low : Option ℕ → Bool
too_low none = true
too_low (some q) = ltb q minimum_granted_qos

abbrev pub is_nil {ℓ} : {A : Type ℓ} → List A → Bool
is_nil [] = true
is_nil (_ ∷ _) = false

abbrev pub reconnect_base : ℕ
reconnect_base = 1

abbrev pub reconnect_max : ℕ
reconnect_max = 60

abbrev pub max_attempt_shift : ℕ
max_attempt_shift = 6

-- `random()` yields a multiple of 1 / 2 ^ 53 below 1; the delay is counted in units of 1 / 2 ^ 54 s.
abbrev pub draws : ℕ
draws = 2 ^ 53

abbrev pub delay_unit : ℕ
delay_unit = 2 ^ 54

-- the multiple of `u` that is nearest to `n`, the even one of two
unfoldable pub round_to : ℕ → ℕ → ℕ
round_to u n =
    let q = n / u in
    let r = n % u in if ltb (2 * r) u || (2 * r == u && q % 2 == 0) then q * u else (q + 1) * u

-- the power of two with which `n` is written in 53 bits, for a number of at most 53 + `fuel` bits
unfoldable pub last_place : ℕ → ℕ → ℕ
last_place zero n = 1
last_place (suc fuel) n = let rest = last_place fuel (n / 2) in if ltb n draws then 1 else 2 * rest

-- The double that a sum or a product of this value is rounded to. The values here have 60 bits at
-- most, and the scale is a power of two, so the units do not matter.
unfoldable pub rounded : ℕ → ℕ
rounded n = round_to (last_place 16 n) n

unfoldable pub next_attempt : ℕ → ℕ
next_attempt attempt = min (attempt + 1) (max_attempt_shift + 1)

unfoldable pub delay_base : ℕ → ℕ
delay_base attempt = min (reconnect_base * 2 ^ (attempt - 1)) reconnect_max

-- `reconnect_delay` with its random draw: the new attempt count and the delay. Half of the base is
-- a double, the product and the sum are rounded.
unfoldable pub reconnect_delay : ℕ → ℕ → ℕ × ℕ
unfolding next_attempt delay_base
reconnect_delay draw attempt =
    let n = next_attempt attempt in
    (n, rounded (delay_base n * draws + rounded (draw * delay_base n)))
