-- ===== src/Hub/Numbers.antt =====
-- Registries whose numbers are all below the next one.
use aiot_powerguard.Prelude.{
  ℕ, ◌+◌, ◌<◌, ◌≡◌, refl, true, false, List, [], ◌∷◌, nat_eq, list_eq, contains, arith,
  Option-cases, inl, inr, All,
}
use aiot_powerguard.Prelude.Dict.{Dict, lookup, insert, erase}
use aiot_powerguard.Text.{Text}
use aiot_powerguard.Hub.{ids_of, put_ids}
use aiot_powerguard.Hub.Registry.{Distinct, IsRegistry, lookup-IsRegistry}

-- every number in the sets is below `n`
abbrev pub AllBelow : ℕ → Dict Text (List ℕ) → Type 0
AllBelow n [] = Unit
AllBelow n ((_, ids) ∷ d) = All (λ i. i < n) ids × AllBelow n d

abbrev pub AllIn : List ℕ → List ℕ → Type 0
AllIn [] live = Unit
AllIn (i ∷ is) live = (contains live i ≡ true) × AllIn is live

pub below_fresh : (n : ℕ) (ids : List ℕ) → All (λ i. i < n) ids → contains ids n ≡ false
below_fresh n [] h = refl
below_fresh n (i ∷ ids) h = ground (arith, below_fresh n ids h.1)

pub All-suc : (n : ℕ) (ids : List ℕ) → All (λ i. i < n) ids → All (λ i. i < n + 1) ids
All-suc n [] h = tt
All-suc n (i ∷ ids) h = (omega (arith, h.0), All-suc n ids h.1)

pub AllBelow-suc : (n : ℕ) (d : Dict Text (List ℕ)) → AllBelow n d → AllBelow (n + 1) d
AllBelow-suc n [] h = tt
AllBelow-suc n ((k, ids) ∷ d) h = (All-suc n ids h.0, AllBelow-suc n d h.1)

pub AllBelow-insert :
    (n : ℕ) (k : Text) (ids : List ℕ) (d : Dict Text (List ℕ))
    → All (λ i. i < n) ids
    → AllBelow n d
    → AllBelow n (insert k ids d)
unfolding insert
AllBelow-insert n k ids [] a h = (a, tt)
AllBelow-insert n k ids ((j, js) ∷ d) a h = ground (arith, AllBelow-insert n k ids d a h.1)

AllBelow-erase : (n : ℕ) (k : Text) (d : Dict Text (List ℕ)) → AllBelow n d → AllBelow n (erase k d)
unfolding erase
AllBelow-erase n k [] h = tt
AllBelow-erase n k ((j, js) ∷ d) h = ground (arith, AllBelow-erase n k d h.1)

pub AllBelow-put_ids :
    (n : ℕ) (k : Text) (ids : List ℕ) (d : Dict Text (List ℕ))
    → All (λ i. i < n) ids
    → AllBelow n d
    → AllBelow n (put_ids k ids d)
AllBelow-put_ids n k [] d a h = AllBelow-erase n k d h
AllBelow-put_ids n k (i ∷ ids) d a h = AllBelow-insert n k (i ∷ ids) d a h

pub AllBelow-ids_of :
    (n : ℕ) (k : Text) (d : Dict Text (List ℕ))
    → AllBelow n d
    → All (λ i. i < n) (ids_of (lookup k d))
unfolding lookup
AllBelow-ids_of n k [] h = tt
AllBelow-ids_of n k ((j, js) ∷ d) h = ground (arith, AllBelow-ids_of n k d h.1)

pub ids_of-Distinct :
    (k : Text) (d : Dict Text (List ℕ)) → IsRegistry d → Distinct (ids_of (lookup k d))
ids_of-Distinct k d h = elim (Option-cases (lookup k d)) [
  | inl e ↦ ground arith
  | inr (ids, e) ↦ ground (arith, lookup-IsRegistry k ids d h e)
]
