-- ===== src/Prelude/Equality.antt =====
-- Python's `==` for the key types of this program: an instance holds a decision procedure.
use Prim.Native.Nat.{ℕ}
use mathlib.Core.Path.{◌≡◌, refl, ap}
use mathlib.Core.Logic.{ite, dite, ◌≢◌}
use mathlib.Core.Bool.{Bool, true, false, ◌||◌}
use mathlib.Core.Option.{Option, none, some, none-ne-some, some-ne-none, some-injective}
use mathlib.Core.List.{List, [], ◌∷◌}
use native.Mathlib.Decide.{ℕ_discrete}
use native.Mathlib.Omega.{arith}

pub record Eq {ℓ} (A : Type ℓ) : Type ℓ where
  pub dec : Discrete A

unfoldable pub eq_of {ℓ} : {A : Type ℓ} → Discrete A → Eq A
eq_of d = record { dec = d }

module _ {ℓ} {A : Type ℓ} ⦃e : Eq A⦄ where
  infix 50 ◌==◌
  abbrev pub ◌==◌ : A → A → Bool
  a == b = ite (e.dec a b) true false

  -- Python's `in` on a sequence
  abbrev pub contains : List A → A → Bool
  contains [] a = false
  contains (x ∷ xs) a = a == x || contains xs a

  pub ==_self : (a : A) → (a == a) ≡ true
  ==_self a = ground arith

  option_dec : Discrete (Option A)
  option_dec none none = yes refl
  option_dec none (some b) = no (none-ne-some b)
  option_dec (some a) none = no (some-ne-none a)
  option_dec (some a) (some b) =
      dite (e.dec a b) (λ p. yes (ap some p)) (λ n. no (λ p. n (some-injective a b p)))

  pub cons_differ : {a b : A} {xs ys : List A} → a ≢ b → a ∷ xs ≢ b ∷ ys
  cons_differ n p = ground arith

  pub rest_differ : {a b : A} {xs ys : List A} → xs ≢ ys → a ∷ xs ≢ b ∷ ys
  rest_differ n p = ground arith

  pub cons_same : {a b : A} {xs ys : List A} → a ≡ b → xs ≡ ys → a ∷ xs ≡ b ∷ ys
  cons_same p q = cc

  pub nil_differ : {a : A} {xs : List A} → [] ≢ a ∷ xs
  nil_differ p = cc

  pub differ_nil : {a : A} {xs : List A} → a ∷ xs ≢ []
  differ_nil p = cc

  list_dec : Discrete (List A)
  list_dec [] [] = yes refl
  list_dec [] (y ∷ ys) = no nil_differ
  list_dec (x ∷ xs) [] = no differ_nil
  list_dec (x ∷ xs) (y ∷ ys) =
      let rest = list_dec xs ys in
      elim (e.dec x y) [
        | yes p ↦ dite rest (λ q. yes (cons_same p q)) (λ n. no (rest_differ n))
        | no n ↦ no (cons_differ n)
      ]

  instance unfoldable pub option_eq : Eq (Option A)
  unfolding option_dec
  option_eq = record { dec = option_dec }

  instance unfoldable pub list_eq : Eq (List A)
  unfolding list_dec
  list_eq = record { dec = list_dec }

instance abbrev pub nat_eq : Eq ℕ
nat_eq = record { dec = ℕ_discrete }

module _ {ℓ κ} {A : Type ℓ} {B : Type κ} ⦃e : Eq A⦄ ⦃f : Eq B⦄ where
  pub fst_differ : {a c : A} {b d : B} → a ≢ c → ◌≢◌ {A = A × B} (a, b) (c, d)
  fst_differ n p = n (ap (λ q. q.0) p)

  pub snd_differ : {a c : A} {b d : B} → b ≢ d → ◌≢◌ {A = A × B} (a, b) (c, d)
  snd_differ n p = n (ap (λ q. q.1) p)

  pub pair_same : {a c : A} {b d : B} → a ≡ c → b ≡ d → ◌≡◌ {A = A × B} (a, b) (c, d)
  pair_same p q = λ i. (p i, q i)

  pair_dec : Discrete (A × B)
  pair_dec (a, b) (c, d) =
      dite (e.dec a c) (λ p. dite (f.dec b d) (λ q. yes (pair_same p q)) (λ n. no (snd_differ n)))
        (λ n. no (fst_differ n))

  instance unfoldable pub pair_eq : Eq (A × B)
  unfolding pair_dec
  pair_eq = record { dec = pair_dec }
