-- ===== src/History.antt =====
-- backend/src/powerguard/db/repositories.py: the pages of `history`, for readings and for anomalies.
-- What a statement selects is a parameter; `view` shows the columns that the statement names.
mod Cursor
pub mod Pages
mod Tests
use aiot_powerguard.Prelude.{
  ℕ, zero, suc, ◌+◌, min, Bool, true, false, ◌&&◌, Option, none, some, List, [], ◌∷◌, ◌++◌, ◌==◌,
  list_eq, nat_eq, if◌then◌else◌, ltb, leb, length, take, last?,
}
use aiot_powerguard.Prelude.Result.{Result, done, refused, demand, ◌>>=◌, ◌>>◌}
use aiot_powerguard.Text.{Text}
use aiot_powerguard.Entities.{Page}

-- a `ValueError`, and what `_execute` raises
pub data HistoryError : Type 0 where
  bad_limit storage_error : HistoryError

pub record Columns : Type 0 where
  pub id : ℕ
  pub device_id : Text
  -- `received_at` or `detected_at`
  pub at : ℕ

-- the conditions of a statement, and its limit
pub record Query : Type 0 where
  pub device_id : Text
  pub since : Option ℕ
  pub until : Option ℕ
  pub before_id : Option ℕ
  pub limit : ℕ

abbrev pub max_page_limit : ℕ
max_page_limit = 1_000

unfoldable pub clamp_limit : ℕ → Result HistoryError ℕ
clamp_limit limit = do demand (leb 1 limit) bad_limit; done (min limit max_page_limit)

module _ {A : Type 0} (view : A → Columns) where
  abbrev pub id_of : Option A → Option ℕ
  id_of none = none
  id_of (some row) = some (view row).id

  -- `_build_page`
  unfoldable pub build_page : List A → ℕ → Page A
  build_page rows limit =
      let items = take limit rows in
      record {
        items = items;
        next_before_id = if ltb limit (length rows) then id_of (last? items) else none;
      }

  module _ (select : Query → Result HistoryError (List A)) where
    unfoldable pub history :
        Text → ℕ → Option ℕ → Option ℕ → Option ℕ → Result HistoryError (Page A)
    unfolding clamp_limit build_page
    history device_id limit since until before_id = do
      bounded ← clamp_limit limit
      rows ← select (record {
        device_id = device_id;
        since = since;
        until = until;
        before_id = before_id;
        limit = bounded + 1;
      })
      done (build_page rows bounded)

abbrev pub at_least : Option ℕ → ℕ → Bool
at_least none n = true
at_least (some bound) n = leb bound n

abbrev pub below : Option ℕ → ℕ → Bool
below none n = true
below (some bound) n = ltb n bound

-- the `where` clauses
abbrev pub selects : Query → Columns → Bool
selects q c =
    c.device_id == q.device_id
    && (at_least q.since c.at && (below q.until c.at && below q.before_id c.id))
