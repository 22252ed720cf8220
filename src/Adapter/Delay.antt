-- ===== src/Adapter/Delay.antt =====
-- The window of the reconnect delay.
use aiot_powerguard.Prelude.{
  ℕ, zero, suc, ◌+◌, ◌-◌, ◌*◌, ◌/◌, ◌%◌, ◌^◌, ltb, dec_lt, sym, subst, Bool-cases, inl, inr, ◌≤◌,
  ◌<◌, ◌≡◌, refl, min, arith,
}
use native.Mathlib.Nat.{pow-suc, mod-lt, div-add-mod'}
use aiot_powerguard.Adapter.Codes.{
  round_to, last_place, rounded, reconnect_delay, next_attempt, delay_base, draws, delay_unit,
  reconnect_max,
}

pow_pos : (n : ℕ) → 1 ≤ 2 ^ n
pow_pos zero = omega arith
pow_pos (suc n) = rw pow-suc (omega (arith, pow_pos n))

delay_base_bounds : (n : ℕ) → (1 ≤ delay_base n) × (delay_base n ≤ reconnect_max)
unfolding delay_base
delay_base_bounds n = omega (arith, pow_pos (n - 1))

no_less : (a b u : ℕ) → a * u < (b + 1) * u → a ≤ b
no_less a b u h = elim (dec_lt b a) [ yes k ↦ absurd (grind arith) | no k ↦ omega arith ]

scaled : (a b u : ℕ) → a ≤ b → a * u ≤ b * u
scaled a b u h = grind arith

module _ (u n : ℕ) (positive : 1 ≤ u) where
  quotient : n ≡ (n / u) * u + n % u
  quotient = sym (div-add-mod' n u)

  round_to-above : (a : ℕ) → a * u ≤ n → a * u ≤ round_to u n
  unfolding round_to
  round_to-above a h =
      let small : n % u < u = mod-lt n positive in
      let below : a ≤ n / u = no_less a (n / u) u (omega (arith, quotient, small)) in
      ground (arith, scaled a (n / u) u below)

  round_to-below : (a : ℕ) → n ≤ a * u → round_to u n ≤ a * u
  unfolding round_to
  round_to-below a h = elim (dec_lt 0 (n % u)) [
    | yes k ↦
        let above : n / u + 1 ≤ a = no_less (n / u + 1) a u (omega (arith, quotient)) in
        ground (arith, quotient, scaled (n / u + 1) a u above)
    | no k ↦ ground (arith, quotient)
  ]

last_place-positive : (fuel n : ℕ) → 1 ≤ last_place fuel n
unfolding last_place
last_place-positive zero n = omega arith
last_place-positive (suc fuel) n = ground (arith, last_place-positive fuel (n / 2))

-- A place is a divisor of the largest one.
last_place-divides : (fuel n : ℕ) → (c : ℕ) × (c * last_place fuel n ≡ 2 ^ fuel)
unfolding last_place
last_place-divides zero n = (1, refl)
last_place-divides (suc fuel) n = elim (Bool-cases (ltb n draws)) [
  | inl e ↦ (2 ^ suc fuel, rw e (omega arith))
  | inr e ↦ let (c, h) = last_place-divides fuel (n / 2) in (c, rw (e, pow-suc) (grind (arith, h)))
]

-- With enough fuel a number takes 53 bits at its last place.
last_place-fits : (fuel n : ℕ) → n < draws * 2 ^ fuel → n < draws * last_place fuel n
unfolding last_place
last_place-fits zero n h = h
last_place-fits (suc fuel) n h = elim (Bool-cases (ltb n draws)) [
  | inl e ↦ rw e (ground (arith, e))
  | inr e ↦
      let two : 2 ^ suc fuel ≡ 2 * 2 ^ fuel = rw pow-suc (omega arith) in
      let half : n < draws * (2 * 2 ^ fuel) = subst (λ z. n < draws * z) two h in
      let rest = last_place-fits fuel (n / 2) (omega (arith, half)) in rw e (omega (arith, rest))
]

-- Rounding does not pass a multiple of the largest draw.
rounded-bounds :
    (b n : ℕ) → (b * draws ≤ n → b * draws ≤ rounded n) × (n ≤ b * draws → rounded n ≤ b * draws)
unfolding rounded
rounded-bounds b n =
    let u = last_place 16 n in
    let positive = last_place-positive 16 n in
    let (c, h) = last_place-divides 16 n in
    let whole : b * draws ≡ (b * (c * 2 ^ 37)) * u = grind (arith, h) in
    (
      λ k. rw whole (round_to-above u n positive (b * (c * 2 ^ 37)) (rw whole at k)),
      λ k. rw whole (round_to-below u n positive (b * (c * 2 ^ 37)) (rw whole at k)),
    )

-- For every draw of the random source the delay, with its product and its sum rounded to doubles, is
-- at least half of the window and at most the whole window, and the window is between one second and
-- the cap.
pub reconnect_delay_bounds :
    (draw attempt : ℕ)
    → draw < draws
    → let (n, delay) = reconnect_delay draw attempt in
      (delay_base n * delay_unit ≤ 2 * delay)
      × (delay ≤ delay_base n * delay_unit)
      × (1 ≤ delay_base n)
      × (delay_base n ≤ reconnect_max)
unfolding reconnect_delay
reconnect_delay_bounds draw attempt h =
    let b = delay_base (next_attempt attempt) in
    let (one, cap) = delay_base_bounds (next_attempt attempt) in
    let product : draw * b ≤ b * draws = grind arith in
    let jitter : rounded (draw * b) ≤ b * draws = (rounded-bounds b (draw * b)).1 product in
    let sum = b * draws + rounded (draw * b) in
    let above : b * draws ≤ rounded sum = (rounded-bounds b sum).0 (omega arith) in
    let below : rounded sum ≤ (2 * b) * draws =
      (rounded-bounds (2 * b) sum).1 (omega (arith, jitter)) in
    (omega (arith, above), omega (arith, below), one, cap)

-- the attempt count after `k` failed attempts in a row
abbrev pub attempts : ℕ → ℕ
attempts zero = 0
attempts (suc k) = next_attempt (attempts k)

attempts-min : (k : ℕ) → attempts k ≡ min k 7
unfolding next_attempt
attempts-min zero = refl
attempts-min (suc k) = omega (arith, attempts-min k)

large : (k : ℕ) → 64 ≤ 2 ^ suc (suc (suc (suc (suc (suc k)))))
large zero = omega arith
large (suc k) = rw pow-suc (omega (arith, large k))

capped : (k : ℕ) → delay_base (min (suc k) 7) ≡ min (2 ^ k) reconnect_max
unfolding delay_base
capped zero = refl
capped (suc zero) = refl
capped (suc (suc zero)) = refl
capped (suc (suc (suc zero))) = refl
capped (suc (suc (suc (suc zero)))) = refl
capped (suc (suc (suc (suc (suc zero))))) = refl
capped (suc (suc (suc (suc (suc (suc k)))))) =
    let seven : min (suc (suc (suc (suc (suc (suc (suc k))))))) 7 ≡ 7 = omega arith in
    rw seven (omega (arith, large k))

-- The window doubles with every attempt since the last usable session, up to the cap.
pub delay_base_doubles : (k : ℕ) → delay_base (attempts (suc k)) ≡ min (2 ^ k) reconnect_max
delay_base_doubles k = rw (attempts-min (suc k)) (capped k)
