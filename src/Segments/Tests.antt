-- ===== src/Segments/Tests.antt =====
-- A stream with one lost reading.
use aiot_powerguard.Prelude.{ℕ, ◌≡◌, refl, List, [], ◌∷◌, All, length, map, list_eq, ℕ_discrete}
use aiot_powerguard.Text.{codes}
use aiot_powerguard.Segments.{Ordered, is_contiguous, cut_from, cut, long_enough}
use aiot_powerguard.Segments.Cut.{concat, IsChain, cut-IsChain}

abbrev self : Ordered → Ordered
self row = row

abbrev sample : ℕ → ℕ → Ordered
sample seq at = record { boot_id = codes "deadbeef"; seq = seq; received_at = at }

abbrev stream : List Ordered
stream = sample 2 10 ∷ sample 4 12 ∷ sample 9 17 ∷ sample 10 18 ∷ sample 12 20 ∷ []

cut-IsChain_example :
    (concat (cut self 2 4 stream) ≡ stream)
    × All (IsChain self 2 4) (cut self 2 4 stream)
    × All (IsChain self 2 4) (long_enough self 2 4 3 stream)
cut-IsChain_example = cut-IsChain self 2 4 3 stream

two_segments : map length (cut self 2 4 stream) ≡ 2 ∷ 3 ∷ []
unfolding cut cut_from is_contiguous list_eq ℕ_discrete
two_segments = refl

one_window : map length (long_enough self 2 4 3 stream) ≡ 3 ∷ []
unfolding long_enough cut cut_from is_contiguous list_eq ℕ_discrete
one_window = refl
