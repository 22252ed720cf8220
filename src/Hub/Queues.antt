-- ===== src/Hub/Queues.antt =====
-- What a published event does to each subscription object.
use aiot_powerguard.Prelude.{
  ℕ, ◌+◌, ◌≤◌, ◌<◌, ◌≡◌, refl, true, List, [], ◌∷◌, ◌++◌, ◌==◌, nat_eq, list_eq, if◌then◌else◌,
  length, contains, arith, Option-cases, Bool-cases, inl, inr, ◌∙◌, length-append,
}
use aiot_powerguard.Prelude.Dict.{lookup}
use aiot_powerguard.Hub.{Event, Subscription, Hub, ids_of, is_full, deliver, deliver_all, dispatch}
use aiot_powerguard.Hub.Registry.{Distinct, lookup-IsRegistry}
use aiot_powerguard.Hub.Accounts.{IsValid}

module _ {F : Type 0} where
  -- What one subscription is promised: the event at the end of its queue, or, if the queue is
  -- full, its end.
  abbrev pub offered : ℕ → Event F → Subscription F → Subscription F
  offered size e s =
      if is_full size s.queue
      then record s { dropped = true; closed = true }
      else record s { queue = s.queue ++ e ∷ [] }

  pub deliver-objects :
      (e : Event F) (i j : ℕ) (h : Hub F) (live : List ℕ)
      → ((deliver e i (h, live)).0.objects j
          ≡ (if j == i then offered h.queue_size e (h.objects i) else h.objects j))
        × ((deliver e i (h, live)).0.queue_size ≡ h.queue_size)
  unfolding deliver
  deliver-objects e i j h live = elim (Bool-cases (is_full h.queue_size (h.objects i).queue)) [
    | inl full ↦ rw (full, deliver) (refl, refl)
    | inr free ↦ rw (free, deliver) (refl, refl)
  ]

  deliver_all-objects :
      (e : Event F) (is : List ℕ) (j : ℕ) (h : Hub F) (live : List ℕ)
      → Distinct is
      → (deliver_all e is (h, live)).0.objects j
        ≡ (if contains is j then offered h.queue_size e (h.objects j) else h.objects j)
  unfolding deliver_all
  deliver_all-objects e [] j h live d = refl
  deliver_all-objects e (i ∷ is) j h live d =
      let rest =
        deliver_all-objects e is j (deliver e i (h, live)).0 (deliver e i (h, live)).1 d.1 in
      ground (arith, rest, deliver-objects e i j h live)

  -- After a published event, every subscription of its device has been offered the event once,
  -- and every other subscription object is as it was.
  pub dispatch-objects :
      (e : Event F) (h : Hub F) (j : ℕ)
      → IsValid h
      → (dispatch e h).objects j ≡ (
          if contains (ids_of (lookup e.device_id h.subscriptions)) j
          then offered h.queue_size e (h.objects j)
          else h.objects j)
  unfolding dispatch
  dispatch-objects e h j v = elim (Option-cases (lookup e.device_id h.subscriptions)) [
    | inl absent ↦ rw (absent, dispatch) refl
    | inr ([], found) ↦ rw (found, dispatch) refl
    | inr (i ∷ is, found) ↦
        let good = lookup-IsRegistry e.device_id (i ∷ is) h.subscriptions v.registry found in
        let b = record h {
          counters = record h.counters { events_published = h.counters.events_published + 1 };
        } in
        rw (found, dispatch) (deliver_all-objects e (i ∷ is) j b (i ∷ is) good.1)
  ]

  offered_bound :
      (size : ℕ) (e : Event F) (s : Subscription F)
      → 0 < size
      → length s.queue ≤ size
      → length (offered size e s).queue ≤ size
  offered_bound size e s p h = ground (arith, length-append s.queue (e ∷ []))

  deliver_all-size :
      (e : Event F) (is : List ℕ) (h : Hub F) (live : List ℕ)
      → (deliver_all e is (h, live)).0.queue_size ≡ h.queue_size
  unfolding deliver_all
  deliver_all-size e [] h live = refl
  deliver_all-size e (i ∷ is) h live =
      deliver_all-size e is (deliver e i (h, live)).0 (deliver e i (h, live)).1
      ∙ (deliver-objects e i i h live).1

  pub dispatch-size : (e : Event F) (h : Hub F) → (dispatch e h).queue_size ≡ h.queue_size
  unfolding dispatch
  dispatch-size e h = elim (Option-cases (lookup e.device_id h.subscriptions)) [
    | inl absent ↦ rw (absent, dispatch) refl
    | inr ([], found) ↦ rw (found, dispatch) refl
    | inr (i ∷ is, found) ↦ rw (found, dispatch) (deliver_all-size e (i ∷ is) _ (i ∷ is))
  ]

  -- With a positive limit, no published event makes any queue longer than the limit.
  pub dispatch-Bounded :
      (e : Event F) (h : Hub F) (j : ℕ)
      → IsValid h
      → 0 < h.queue_size
      → length (h.objects j).queue ≤ h.queue_size
      → length ((dispatch e h).objects j).queue ≤ (dispatch e h).queue_size
  dispatch-Bounded e h j v p b =
      let one = offered_bound h.queue_size e (h.objects j) p b in
      rw (dispatch-size e h, dispatch-objects e h j v)
        (elim (Bool-cases (contains (ids_of (lookup e.device_id h.subscriptions)) j)) [
          | inl here ↦ rw here one
          | inr elsewhere ↦ rw elsewhere b
        ])
