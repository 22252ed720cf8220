-- ===== src/Hub/Registry.antt =====
-- Sets of subscriptions as lists, and the sum of their sizes over the dict of devices.
use aiot_powerguard.Prelude.{
  ℕ, ◌+◌, ◌≡◌, ◌≢◌, refl, true, false, none, some, List, [], ◌∷◌, nat_eq, list_eq, length, contains,
  arith,
}
use aiot_powerguard.Prelude.Dict.{Dict, lookup, insert, erase, lookup-insert, lookup-erase}
use aiot_powerguard.Text.{Text}
use aiot_powerguard.Hub.{total, discard, ids_of, is_empty, put_ids}

-- no number twice
abbrev pub Distinct : List ℕ → Type 0
Distinct [] = Unit
Distinct (i ∷ is) = (contains is i ≡ false) × Distinct is

pub contains-discard :
    (i j : ℕ) (is : List ℕ) → contains is j ≡ false → contains (discard i is) j ≡ false
contains-discard i j [] h = refl
contains-discard i j (k ∷ is) h = ground (arith, contains-discard i j is)

pub contains-discard_ne :
    (i j : ℕ) (is : List ℕ) → i ≢ j → contains is j ≡ true → contains (discard i is) j ≡ true
contains-discard_ne i j [] n h = cc
contains-discard_ne i j (k ∷ is) n h = ground (arith, contains-discard_ne i j is n)

pub discard-Distinct : (i : ℕ) (is : List ℕ) → Distinct is → Distinct (discard i is)
discard-Distinct i [] h = tt
discard-Distinct i (k ∷ is) h = ground (arith, discard-Distinct i is h.1, contains-discard i k is)

pub discard_absent : (i : ℕ) (is : List ℕ) → contains is i ≡ false → discard i is ≡ is
discard_absent i [] h = refl
discard_absent i (k ∷ is) h = ground (arith, discard_absent i is)

pub length-discard :
    (i : ℕ) (is : List ℕ)
    → Distinct is
    → contains is i ≡ true
    → length (discard i is) + 1 ≡ length is
length-discard i [] d h = cc
length-discard i (k ∷ is) d h = ground (arith, length-discard i is d.1, discard_absent i is)

-- Every device once, and with a set that is not empty and has no number twice.
abbrev pub IsRegistry : Dict Text (List ℕ) → Type 0
IsRegistry [] = Unit
IsRegistry ((k, ids) ∷ d) =
    (lookup k d ≡ none) × ((is_empty ids ≡ false) × Distinct ids) × IsRegistry d

pub erase_absent : (k : Text) (d : Dict Text (List ℕ)) → lookup k d ≡ none → erase k d ≡ d
unfolding lookup erase
erase_absent k [] h = refl
erase_absent k ((j, ids) ∷ d) h = ground (arith, erase_absent k d)

pub erase-IsRegistry : (k : Text) (d : Dict Text (List ℕ)) → IsRegistry d → IsRegistry (erase k d)
unfolding erase
erase-IsRegistry k [] h = tt
erase-IsRegistry k ((j, ids) ∷ d) h = ground (arith, erase-IsRegistry k d h.2, lookup-erase j k d)

pub insert-IsRegistry :
    (k : Text) (ids : List ℕ) (d : Dict Text (List ℕ))
    → is_empty ids ≡ false
    → Distinct ids
    → IsRegistry d
    → IsRegistry (insert k ids d)
unfolding insert lookup
insert-IsRegistry k ids [] e u h = (refl, (e, u), tt)
insert-IsRegistry k ids ((j, js) ∷ d) e u h =
    ground (arith, insert-IsRegistry k ids d e u h.2, lookup-insert j k ids d)

pub total-insert :
    (k : Text) (ids : List ℕ) (d : Dict Text (List ℕ))
    → total (insert k ids d) + length (ids_of (lookup k d)) ≡ total d + length ids
unfolding insert lookup
total-insert k ids [] = omega arith
total-insert k ids ((j, js) ∷ d) = ground (arith, total-insert k ids d)

pub total-erase :
    (k : Text) (d : Dict Text (List ℕ))
    → IsRegistry d
    → total (erase k d) + length (ids_of (lookup k d)) ≡ total d
unfolding erase lookup
total-erase k [] h = omega arith
total-erase k ((j, js) ∷ d) h = ground (arith, total-erase k d h.2, erase_absent k d)

pub lookup-IsRegistry :
    (k : Text) (ids : List ℕ) (d : Dict Text (List ℕ))
    → IsRegistry d
    → lookup k d ≡ some ids
    → (is_empty ids ≡ false) × Distinct ids
unfolding lookup
lookup-IsRegistry k ids [] h e = cc
lookup-IsRegistry k ids ((j, js) ∷ d) h e = ground (arith, lookup-IsRegistry k ids d h.2)

pub put_ids-IsRegistry :
    (k : Text) (ids : List ℕ) (d : Dict Text (List ℕ))
    → Distinct ids
    → IsRegistry d
    → IsRegistry (put_ids k ids d)
put_ids-IsRegistry k [] d u h = erase-IsRegistry k d h
put_ids-IsRegistry k (i ∷ ids) d u h = insert-IsRegistry k (i ∷ ids) d refl u h

pub total-put_ids :
    (k : Text) (ids : List ℕ) (d : Dict Text (List ℕ))
    → IsRegistry d
    → total (put_ids k ids d) + length (ids_of (lookup k d)) ≡ total d + length ids
total-put_ids k [] d h = omega (arith, total-erase k d h)
total-put_ids k (i ∷ ids) d h = total-insert k (i ∷ ids) d
