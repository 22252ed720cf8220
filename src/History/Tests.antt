-- ===== src/History/Tests.antt =====
-- Five rows in pages of two, and two rows whose ids and times disagree.
use aiot_powerguard.Prelude.{
  ℕ, ◌≡◌, refl, ◌&&◌, none, some, List, [], ◌∷◌, ◌==◌, list_eq, ℕ_discrete, nat_eq, take, keep,
  arith,
}
use aiot_powerguard.Prelude.Result.{Result, done}
use aiot_powerguard.Text.{codes}
use aiot_powerguard.History.{
  HistoryError, Columns, Query, clamp_limit, build_page, history, at_least, below, selects,
}
use aiot_powerguard.History.Pages.{follow-history}
use aiot_powerguard.History.Cursor.{follow}

abbrev self : Columns → Columns
self row = row

abbrev row : ℕ → ℕ → Columns
row n t = record { id = n; device_id = codes "plug-1"; at = t }

abbrev table : List Columns
table = row 9 90 ∷ row 8 80 ∷ row 5 80 ∷ row 3 30 ∷ row 2 20 ∷ []

abbrev select : List Columns → Query → Result HistoryError (List Columns)
select rows q = done (take q.limit (keep (λ c. selects q c) rows))

follow-history_example :
    follow (history self (select table) (codes "plug-1") 2 (some 25) none) 6 none
    ≡ keep
        (λ c. c.device_id == codes "plug-1" && (at_least (some 25) c.at && below none c.at))
        table
follow-history_example =
    follow-history self (select table) (codes "plug-1") 2 (some 25) none table (λ q. refl)
      (
        (omega arith, (omega arith, (omega arith, (omega arith, tt)))),
        (
          (omega arith, (omega arith, (omega arith, tt))),
          ((omega arith, (omega arith, tt)), ((omega arith, tt), (tt, tt))),
        ),
      )
      (omega arith) 6 (omega arith)

-- The row with the later id and the earlier time is on no page.
lost_row :
    follow (history self (select (row 5 10 ∷ row 6 9 ∷ [])) (codes "plug-1") 1 none none) 3 none
    ≡ row 5 10 ∷ []
unfolding history clamp_limit build_page list_eq ℕ_discrete
lost_row = refl
