-- ===== src/History/Pages.antt =====
-- Following the cursor from page to page.
use aiot_powerguard.Prelude.{
  ℕ, zero, suc, ◌+◌, ◌≤◌, ◌<◌, min, ◌≡◌, refl, sym, ap, ◌∙◌, Bool, true, false, ◌&&◌, Option, none,
  some, List, ◌++◌, ◌==◌, list_eq, nat_eq, ltb, leb, length, take, drop, keep, last?, All-map,
  arith, append_nil, length-keep, length-take, length-drop, take_all, dec_lt,
}
use aiot_powerguard.Prelude.Result.{Result, done}
use aiot_powerguard.Text.{Text}
use aiot_powerguard.Entities.{Page}
use aiot_powerguard.Prepare.Order.{Pairwise}
use aiot_powerguard.Prepare.Sets.{keep_holds}
use aiot_powerguard.History.{
  HistoryError, Columns, Query, max_page_limit, clamp_limit, id_of, build_page, history, at_least,
  below, selects,
}
use aiot_powerguard.History.Cursor.{
  keep-keep, keep-same, keep-Pairwise, take-take, All-take, take-append-rest, IsOlder, last-id,
  cursor-drop, last-some, items_of, follow,
}

below_both : (o : Option ℕ) (b n : ℕ) → below o b ≡ true → (below o n && ltb n b) ≡ ltb n b
below_both none b n h = refl
below_both (some c) b n h = ground arith

last_true : (x y z l : Bool) → (x && (y && (z && l))) ≡ true → l ≡ true
last_true x y z l h = ground arith

and_last :
    (x y z l m : Bool) → (l && m) ≡ m → ((x && (y && (z && l))) && m) ≡ (x && (y && (z && m)))
and_last x y z l m h = ground arith

module _ {A : Type 0} (view : A → Columns) (select : Query → Result HistoryError (List A))
    (device_id : Text) (limit : ℕ) (since until : Option ℕ) (ordered : List A)
    (selected : (q : Query)
      → select q ≡ done (take q.limit (keep (λ x. selects q (view x)) ordered)))
    (older : Pairwise (IsOlder view) ordered) (positive : 1 ≤ limit) where
  abbrev query : Option ℕ → Query
  query before_id = record {
    device_id = device_id;
    since = since;
    until = until;
    before_id = before_id;
    limit = min limit max_page_limit + 1;
  }

  abbrev matching : Option ℕ → List A
  matching before_id = keep (λ x. selects (query before_id) (view x)) ordered

  abbrev page : Option ℕ → Result HistoryError (Page A)
  page before_id = history view select device_id limit since until before_id

  page_lem :
      (before_id : Option ℕ)
      → page before_id
        ≡ done (
            build_page view
              (take (min limit max_page_limit + 1) (matching before_id))
              (min limit max_page_limit))
  unfolding history clamp_limit
  page_lem before_id =
      let ripe : leb 1 limit ≡ true = ground arith in
      rw (ripe, history, clamp_limit) (rw (selected (query before_id)) refl)

  -- what is left when the last id of a page becomes the cursor
  matching-cursor :
      (before_id : Option ℕ) (b : ℕ)
      → id_of view (last? (take (min limit max_page_limit) (matching before_id))) ≡ some b
      → matching (some b) ≡ drop (min limit max_page_limit) (matching before_id)
  matching-cursor before_id b e =
      let n = min limit max_page_limit in
      let some_row : 1 ≤ n = omega (arith, positive) in
      let inside : below before_id b ≡ true =
        last-id view (λ i. below before_id i ≡ true) (take n (matching before_id)) b e
          (All-take (λ x. below before_id (view x).id ≡ true) n (matching before_id)
            (All-map
              (λ x k.
                last_true ((view x).device_id == device_id) (at_least since (view x).at)
                  (below until (view x).at) (below before_id (view x).id) k)
              (matching before_id)
              (keep_holds (λ x. selects (query before_id) (view x)) ordered))) in
      sym (
        keep-keep (λ x. ltb (view x).id b) (λ x. selects (query before_id) (view x)) ordered
        ∙ keep-same _ _ ordered (λ x.
          and_last ((view x).device_id == device_id) (at_least since (view x).at)
            (below until (view x).at) (below before_id (view x).id) (ltb (view x).id b)
            (below_both before_id b (view x).id inside)))
      ∙ cursor-drop view n (matching before_id) b
          (keep-Pairwise (IsOlder view) (λ x. selects (query before_id) (view x)) ordered older)
          some_row e

  follow-matching :
      (fuel : ℕ) (before_id : Option ℕ)
      → length (matching before_id) < fuel
      → follow page fuel before_id ≡ matching before_id
  unfolding build_page
  follow-matching zero before_id h = absurd (omega arith)
  follow-matching (suc fuel) before_id h =
      let n = min limit max_page_limit in
      let rows = matching before_id in
      let probed = take (n + 1) rows in
      let some_row : 1 ≤ n = omega (arith, positive) in
      let first : take n probed ≡ take n rows = take-take n (n + 1) rows (omega arith) in
      let count : length probed ≡ min (n + 1) (length rows) = length-take (n + 1) rows in
      ap (λ r. items_of r (follow page fuel)) (page_lem before_id) ∙ elim (dec_lt n (length rows)) [
        | no whole ↦
            let last : ltb n (length probed) ≡ false = ground (arith, count) in
            rw last (append_nil (take n probed) ∙ first ∙ take_all n rows (omega arith))
        | yes more ↦
            let next : ltb n (length probed) ≡ true = ground (arith, count) in
            let (b, cursor) = last-some view (take n rows) (omega (arith, length-take n rows)) in
            let rest = matching-cursor before_id b cursor in
            let fewer : length (matching (some b)) < fuel =
              omega (arith, ap length rest ∙ length-drop n rows) in
            rw (next, first, cursor)
              (ap (λ w. take n rows ++ w) (follow-matching fuel (some b) fewer ∙ rest)
                ∙ take-append-rest n rows)
      ]

-- Let a statement select the rows of a table that meet its conditions, in one order and up to its
-- limit, let a later row in that order always have a smaller id, and let the limit be at least one.
-- A client that starts without a cursor and follows `next_before_id` gets every row of the device
-- and the period once, in that order, and is done after at most one page more than there are rows.
pub follow-history :
    {A : Type 0} (view : A → Columns) (select : Query → Result HistoryError (List A))
    (device_id : Text) (limit : ℕ) (since until : Option ℕ) (ordered : List A)
    → ((q : Query) → select q ≡ done (take q.limit (keep (λ x. selects q (view x)) ordered)))
    → Pairwise (IsOlder view) ordered
    → 1 ≤ limit
    → (fuel : ℕ) → length ordered < fuel
    → follow (history view select device_id limit since until) fuel none
      ≡ keep
          (λ x.
            (view x).device_id == device_id
            && (at_least since (view x).at && below until (view x).at))
          ordered
follow-history view select device_id limit since until ordered selected older positive fuel enough =
    follow-matching view select device_id limit since until ordered selected older positive fuel
      none
      (omega (
        arith,
        enough,
        length-keep
            (λ x.
              (view x).device_id == device_id
              && (at_least since (view x).at && (below until (view x).at && true)))
            ordered,
      ))
    ∙ keep-same _ _ ordered (λ x. ground arith)
