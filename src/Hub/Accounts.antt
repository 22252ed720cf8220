-- ===== src/Hub/Accounts.antt =====
-- The hub's counters agree with its registry, and the cap holds, after every operation.
use aiot_powerguard.Prelude.{
  ℕ, ◌+◌, ◌≤◌, ◌<◌, ◌≡◌, refl, true, false, not, some, List, [], ◌∷◌, ◌==◌, nat_eq, list_eq, length,
  contains, arith, subst, sym, Option-cases, inl, inr, All, All-keep,
}
use aiot_powerguard.Prelude.Dict.{lookup}
use aiot_powerguard.Text.{Text}
use aiot_powerguard.Hub.{
  Event, Hub, total, discard, ids_of, put_ids, connection_count, subscribe, unsubscribe, deliver,
  deliver_all, dispatch, next_event,
}
use aiot_powerguard.Hub.Registry.{
  Distinct, IsRegistry, discard-Distinct, length-discard, contains-discard_ne, lookup-IsRegistry,
  put_ids-IsRegistry, insert-IsRegistry, total-put_ids, total-insert,
}
use aiot_powerguard.Hub.Numbers.{
  AllBelow, AllIn, below_fresh, All-suc, AllBelow-suc, AllBelow-insert, AllBelow-put_ids,
  AllBelow-ids_of, ids_of-Distinct,
}

pub record IsValid {F : Type 0} (h : Hub F) : Type 0 where
  pub registry : IsRegistry h.subscriptions
  pub numbered : AllBelow h.fresh h.subscriptions
  pub counted : h.counters.opened ≡ h.counters.closed + connection_count h
  pub capped : connection_count h ≤ h.max_connections

module _ {F : Type 0} where
  -- A subscription attempt, accepted or refused, keeps the registry free of doubles and of empty
  -- sets, the opened counter equal to the closed one plus the registered connections, and their
  -- number within the cap.
  pub subscribe-IsValid : (d : Text) (h : Hub F) → IsValid h → IsValid (subscribe d h).0
  unfolding subscribe connection_count
  subscribe-IsValid d h v =
      let old = ids_of (lookup d h.subscriptions) in
      let low = AllBelow-ids_of h.fresh d h.subscriptions v.numbered in
      let fresh_id = below_fresh h.fresh old low in
      ground (
        arith,
        total-insert d (h.fresh ∷ old) h.subscriptions,
        insert-IsRegistry d (h.fresh ∷ old) h.subscriptions refl
            (fresh_id, ids_of-Distinct d h.subscriptions v.registry) v.registry,
        AllBelow-insert (h.fresh + 1) d (h.fresh ∷ old) h.subscriptions
            (omega arith, All-suc h.fresh old low)
            (AllBelow-suc h.fresh h.subscriptions v.numbered),
      )

  unsubscribe_absent :
      (i : ℕ) (h : Hub F)
      → contains (ids_of (lookup (h.objects i).device_id h.subscriptions)) i ≡ false
      → ((unsubscribe i h).subscriptions ≡ h.subscriptions)
        × ((unsubscribe i h).counters ≡ h.counters)
        × ((unsubscribe i h).fresh ≡ h.fresh)
        × ((unsubscribe i h).max_connections ≡ h.max_connections)
  unfolding unsubscribe
  unsubscribe_absent i h e = ground arith

  -- An unsubscription keeps the registry free of doubles and of empty sets, the opened counter equal
  -- to the closed one plus the registered connections, and their number within the cap.
  pub unsubscribe-IsValid : (i : ℕ) (h : Hub F) → IsValid h → IsValid (unsubscribe i h)
  unfolding unsubscribe connection_count
  unsubscribe-IsValid i h v = elim (Option-cases (lookup (h.objects i).device_id h.subscriptions)) [
    | inl e ↦ ground arith
    | inr (ids, e) ↦
        let k = (h.objects i).device_id in
        let good = lookup-IsRegistry k ids h.subscriptions v.registry e in
        ground (
          arith,
          length-discard i ids good.1,
          total-put_ids k (discard i ids) h.subscriptions v.registry,
          put_ids-IsRegistry k (discard i ids) h.subscriptions (discard-Distinct i ids good.1)
              v.registry,
          AllBelow-put_ids h.fresh k (discard i ids) h.subscriptions,
          All-keep (λ j. j < h.fresh) (λ j. not (i == j)) ids,
          AllBelow-ids_of h.fresh k h.subscriptions v.numbered,
        )
  ]

AllIn-weaken : (i : ℕ) (is live : List ℕ) → AllIn is live → AllIn is (i ∷ live)
AllIn-weaken i [] live h = tt
AllIn-weaken i (j ∷ is) live h = (ground arith, AllIn-weaken i is live h.1)

self-AllIn : (is : List ℕ) → AllIn is is
self-AllIn [] = tt
self-AllIn (i ∷ is) = (ground arith, AllIn-weaken i is is (self-AllIn is))

AllIn-discard :
    (i : ℕ) (is live : List ℕ) → contains is i ≡ false → AllIn is live → AllIn is (discard i live)
AllIn-discard i [] live n h = tt
AllIn-discard i (j ∷ is) live n h = (
  contains-discard_ne i j live (λ e. ground arith) h.0,
  AllIn-discard i is live (ground arith) h.1,
)

-- What the rounds of a dispatch keep, from `(h, live)` to `(c, left)`.
record Rounds {F : Type 0} (n : ℕ) (h c : Hub F) (live left : List ℕ) : Type 0 where
  left_Distinct : Distinct left
  left_below : All (λ i. i < n) left
  balanced : c.counters.closed + length left ≡ h.counters.closed + length live
  shorter : length left ≤ length live
  same_opened : c.counters.opened ≡ h.counters.opened
  same_subscriptions : c.subscriptions ≡ h.subscriptions
  same_fresh : c.fresh ≡ h.fresh
  same_cap : c.max_connections ≡ h.max_connections

module _ {F : Type 0} where
  deliver-Rounds :
      (n : ℕ) (e : Event F) (i : ℕ) (h : Hub F) (live : List ℕ)
      → Distinct live
      → All (λ j. j < n) live
      → contains live i ≡ true
      → Rounds n h (deliver e i (h, live)).0 live (deliver e i (h, live)).1
  unfolding deliver
  deliver-Rounds n e i h live d b c = ground (
    arith,
    length-discard i live d c,
    discard-Distinct i live d,
    All-keep (λ j. j < n) (λ j. not (i == j)) live b,
  )

  deliver-AllIn :
      (e : Event F) (i : ℕ) (is : List ℕ) (h : Hub F) (live : List ℕ)
      → contains is i ≡ false
      → AllIn is live
      → AllIn is (deliver e i (h, live)).1
  unfolding deliver
  deliver-AllIn e i is h live n a = ground (arith, AllIn-discard i is live n a)

  Rounds-trans :
      (n : ℕ) (h c k : Hub F) (live left rest : List ℕ)
      → Rounds n h c live left
      → Rounds n c k left rest
      → Rounds n h k live rest
  Rounds-trans n h c k live left rest p q = ground arith

  deliver_all-Rounds :
      (n : ℕ) (e : Event F) (is : List ℕ) (h : Hub F) (live : List ℕ)
      → Distinct is
      → Distinct live
      → All (λ j. j < n) live
      → AllIn is live
      → Rounds n h (deliver_all e is (h, live)).0 live (deliver_all e is (h, live)).1
  unfolding deliver_all
  deliver_all-Rounds n e [] h live u d b a = ground arith
  deliver_all-Rounds n e (i ∷ is) h live u d b a =
      let (c, left) = deliver e i (h, live) in
      let one = deliver-Rounds n e i h live d b a.0 in
      Rounds-trans n h c _ live left _ one (
        deliver_all-Rounds n e is c left u.1 one.left_Distinct one.left_below
          (deliver-AllIn e i is h live u.0 a.1))

  put_live_at :
      (k : Text) (ids left : List ℕ) (h c : Hub F)
      → lookup k h.subscriptions ≡ some ids
      → IsValid h
      → Rounds h.fresh h c ids left
      → IsValid (record c { subscriptions = put_ids k left h.subscriptions })
  unfolding connection_count
  put_live_at k ids left h c found v r =
      let registry = put_ids-IsRegistry k left h.subscriptions r.left_Distinct v.registry in
      let numbered = AllBelow-put_ids h.fresh k left h.subscriptions r.left_below v.numbered in
      let sum =
        subst
          (λ o.
            total (put_ids k left h.subscriptions) + length (ids_of o)
            ≡ total h.subscriptions + length left)
          found (total-put_ids k left h.subscriptions v.registry) in
      let shorter : length left ≤ length ids = r.shorter in
      record {
        registry = registry;
        numbered =
            subst (λ n. AllBelow n (put_ids k left h.subscriptions)) (sym r.same_fresh) numbered;
        counted = omega (arith, sum, v.counted, r.balanced, r.same_opened);
        capped = omega (arith, sum, v.capped, r.same_cap, shorter);
      }

  put_live-IsValid :
      (k : Text) (ids left : List ℕ) (h c : Hub F)
      → lookup k h.subscriptions ≡ some ids
      → IsValid h
      → Rounds h.fresh h c ids left
      → IsValid (record c { subscriptions = put_ids k left c.subscriptions })
  put_live-IsValid k ids left h c found v r =
      subst (λ s. IsValid (record c { subscriptions = put_ids k left s }))
        (sym r.same_subscriptions) (put_live_at k ids left h c found v r)

  published : Hub F → Hub F
  published h = record h {
    counters = record h.counters { events_published = h.counters.events_published + 1 };
  }

  published-IsValid : (h : Hub F) → IsValid h → IsValid (published h)
  unfolding published connection_count
  published-IsValid h v = ground arith

  dispatch-Rounds :
      (e : Event F) (ids : List ℕ) (h : Hub F)
      → lookup e.device_id h.subscriptions ≡ some ids
      → IsValid h
      → Rounds h.fresh h (deliver_all e ids (h, ids)).0 ids (deliver_all e ids (h, ids)).1
  dispatch-Rounds e ids h found v =
      let good = lookup-IsRegistry e.device_id ids h.subscriptions v.registry found in
      let low : All (λ i. i < h.fresh) ids =
        ground (arith, AllBelow-ids_of h.fresh e.device_id h.subscriptions v.numbered) in
      deliver_all-Rounds h.fresh e ids h ids good.1 good.1 low (self-AllIn ids)

  -- A published event, whatever number of slow clients it drops, keeps the registry free of doubles
  -- and of empty sets, the opened counter equal to the closed one plus the registered connections,
  -- and their number within the cap.
  pub dispatch-IsValid : (e : Event F) (h : Hub F) → IsValid h → IsValid (dispatch e h)
  unfolding dispatch published
  dispatch-IsValid e h v = elim (Option-cases (lookup e.device_id h.subscriptions)) [
    | inl absent ↦ rw (absent, dispatch) (published-IsValid h v)
    | inr ([], found) ↦ rw (found, dispatch) (published-IsValid h v)
    | inr (i ∷ ids, found) ↦
        let b = published h in
        let w = published-IsValid h v in
        rw (found, dispatch)
          (put_live-IsValid e.device_id (i ∷ ids) _ b _ found w
            (dispatch-Rounds e (i ∷ ids) b found w))
  ]

  pub next_event-IsValid : (i : ℕ) (h : Hub F) → IsValid h → IsValid (next_event i h).0
  unfolding next_event connection_count
  next_event-IsValid i h v = ground arith
