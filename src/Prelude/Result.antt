-- ===== src/Prelude/Result.antt =====
-- Calls that may raise, with what they raise, for `do` blocks.
use mathlib.Core.Path.{◌≡◌, refl}
use mathlib.Core.Bool.{Bool, true, false}

pub data Result {ℓ κ} (E : Type ℓ) (A : Type κ) : Type (ℓ ⊔ κ) where
  done : A → Result E A
  refused : E → Result E A

infixl 5 ◌>>=◌ ◌>>◌
abbrev pub ◌>>=◌ {ℓ κ μ} :
    {E : Type ℓ} {A : Type κ} {B : Type μ} → Result E A → (A → Result E B) → Result E B
done a >>= f = f a
refused e >>= f = refused e

abbrev pub ◌>>◌ {ℓ κ} : {E : Type ℓ} {B : Type κ} → Result E (Unit {0}) → Result E B → Result E B
m >> k = m >>= λ _. k

-- `if not test: raise e`
abbrev pub demand {ℓ} : {E : Type ℓ} → Bool → E → Result E (Unit {0})
demand true e = done tt
demand false e = refused e

pub bind-done {ℓ κ μ} :
    {E : Type ℓ} {A : Type κ} {B : Type μ} (m : Result E A) (k : A → Result E B) (b : B)
    → (m >>= k) ≡ done b
    → (a : A) × (m ≡ done a) × (k a ≡ done b)
bind-done (done a) k b h = (a, refl, h)
bind-done (refused e) k b h = absurd cc

pub demand-done {ℓ} :
    {E : Type ℓ} (b : Bool) (e : E) (u : Unit {0}) → demand b e ≡ done u → b ≡ true
demand-done true e u h = refl
demand-done false e u h = absurd cc

pub done-injective {ℓ κ} :
    {E : Type ℓ} {A : Type κ} (a b : A) → ◌≡◌ {A = Result E A} (done a) (done b) → a ≡ b
done-injective a b h = cc

-- a test that passes, and what follows it
pub demand-then {ℓ κ} :
    {E : Type ℓ} {B : Type κ} (b : Bool) (e : E) (k : Result E B) (x : B)
    → (demand b e >> k) ≡ done x
    → (b ≡ true) × (k ≡ done x)
demand-then true e k x h = (refl, h)
demand-then false e k x h = absurd cc
